-- ===== src/Api/Router.antt =====
-- `build_router` of crates/api/src/lib.rs: which handler of handlers.rs a request reaches. Axum's
-- reading of a request (path segments, query, header, JSON body) is the request's data here.
use stellartrace.Prelude.{
  Bool, true, false, ◌&&◌, Option, none, some, String, List, [], ◌∷◌, string_eq, ◌==◌,
  if◌then◌else◌,
}
use stellartrace.Prelude.Outcome.{Result, ok, fail, Run, done, panicked, unfinished}
use stellartrace.Platform.{Float, Chrono, Uuid, Unicode}
use stellartrace.Common.{NormalizedTransaction, Alert, AiRecommendation}
use stellartrace.Audit.{Hashing, AuditRecord}
use stellartrace.Alerts.{Stamp}
use stellartrace.Advisor.{AiAdvisor}
use stellartrace.Api.Metrics.{render_prometheus_text}
use stellartrace.Api.Auth.{AuthUser, AuthError, from_request_parts}
use stellartrace.Api.Error.{ApiError, UuidText}
use stellartrace.Api.State.{AppState}
use stellartrace.Api.Evaluation.{
  Draws, EvaluationResult, ingest_and_evaluate, get_transaction, evaluate_transaction,
}
use stellartrace.Api.Review.{
  DecisionRequest, IntegrityResponse, list_alerts, get_alert, get_ai_investigation, submit_decision,
  get_alert_audit, verify_audit_integrity,
}

pub data Method : Type 0 where
  get head post other_method : Method

-- The routes, each with what its parameter matches.
pub data Endpoint : Type 0 where
  health metrics transactions alerts audit_verify : Endpoint
  transaction evaluation alert investigation decision alert_audit : String → Endpoint

-- `get(..)` serves HEAD too.
abbrev pub reads : Method → Bool
reads get = true
reads head = true
reads post = false
reads other_method = false

abbrev pub posts : Method → Bool
posts post = true
posts get = false
posts head = false
posts other_method = false

abbrev pub allows : Endpoint → Method → Bool
allows health m = reads m
allows metrics m = reads m
allows transactions m = posts m
allows alerts m = reads m
allows audit_verify m = reads m
allows (transaction tx_hash) m = reads m
allows (evaluation tx_hash) m = posts m
allows (alert id) m = reads m
allows (investigation id) m = reads m
allows (decision id) m = posts m
allows (alert_audit id) m = reads m

abbrev pub one_segment : String → Option Endpoint
one_segment a = if a == "health" then some health else if a == "metrics" then some metrics else none

abbrev pub two_segments : String → Option Endpoint
two_segments b =
    if b == "transactions" then some transactions else if b == "alerts" then some alerts else none

-- A parameter matches a segment that is not empty.
abbrev pub three_segments : String → String → Option Endpoint
three_segments b c =
    if b == "audit" && c == "verify"
    then some audit_verify
    else if c == ""
    then none
    else if b == "transactions"
    then some (transaction c)
    else if b == "alerts"
    then some (alert c)
    else none

abbrev pub four_segments : String → String → String → Option Endpoint
four_segments b c d =
    if c == ""
    then none
    else if b == "transactions" && d == "evaluate"
    then some (evaluation c)
    else if b == "alerts" && d == "ai-investigation"
    then some (investigation c)
    else if b == "alerts" && d == "decision"
    then some (decision c)
    else if b == "alerts" && d == "audit"
    then some (alert_audit c)
    else none

-- the route that matches the segments of a path
unfoldable pub matched : List String → Option Endpoint
matched [] = none
matched (a ∷ []) = one_segment a
matched (a ∷ b ∷ []) = if a == "api" then two_segments b else none
matched (a ∷ b ∷ c ∷ []) = if a == "api" then three_segments b c else none
matched (a ∷ b ∷ c ∷ d ∷ []) = if a == "api" then four_segments b c d else none
matched (a ∷ b ∷ c ∷ d ∷ e ∷ rest) = none

-- A request as axum reads it; a body that does not parse is `none`.
pub record Request (T : Type 0) : Type 0 where
  pub method : Method
  pub segments : List String
  pub status : Option String
  pub authorization : Option String
  pub transaction_body : Option (NormalizedTransaction T)
  pub decision_body : Option DecisionRequest

-- What a handler draws, and the advisor that it asks.
pub record Chance (F T : Type 0) : Type 0 where
  pub draws : Draws T
  pub primary : AiAdvisor F T
  pub now : T
  pub decided_at : T
  pub first : Stamp T
  pub second : Stamp T

-- Axum parses the segment of a `Path<Uuid>`.
pub record UuidParse : Type 0 where
  pub parse_uuid : String → Option Uuid

pub data Response (F T : Type 0) : Type 0 where
  plain : String → Response F T
  one_transaction : NormalizedTransaction T → Response F T
  result : EvaluationResult F T → Response F T
  alert_list : List (Alert F T) → Response F T
  one_alert : Alert F T → Response F T
  recommendation : AiRecommendation F T → Response F T
  trail : List (AuditRecord F T) → Response F T
  integrity : IntegrityResponse → Response F T
  refused : ApiError → Response F T
  unauthenticated : AuthError → Response F T
  rejected no_route no_method aborted : Response F T

abbrev responded : {A F T : Type 0} → (A → Response F T) → Result A ApiError → Response F T
responded f (ok a) = f a
responded f (fail e) = refused e

module _ {F T : Type 0} where
  -- The answer of a handler, whose panic aborts the request.
  abbrev pub evaluation_response :
      AppState F T → Option (AppState F T × EvaluationResult F T) → AppState F T × Response F T
  evaluation_response s none = (s, aborted)
  evaluation_response s (some (s', r)) = (s', result r)

  abbrev pub stored_response :
      AppState F T
      → Option (AppState F T × Result (EvaluationResult F T) ApiError)
      → AppState F T × Response F T
  stored_response s none = (s, aborted)
  stored_response s (some (s', r)) = (s', responded result r)

  abbrev pub advice_response :
      AppState F T × Run (Result (AiRecommendation F T) ApiError) → AppState F T × Response F T
  advice_response (s', panicked) = (s', aborted)
  advice_response (s', unfinished) = (s', aborted)
  advice_response (s', done r) = (s', responded recommendation r)

  abbrev pub decision_response :
      AppState F T × Result (Alert F T) ApiError → AppState F T × Response F T
  decision_response (s', r) = (s', responded one_alert r)

module _ {F T : Type 0} ⦃f64 : Float F⦄ ⦃chrono : Chrono T⦄ ⦃hashing : Hashing F T⦄
    ⦃text : UuidText⦄ ⦃unicode : Unicode⦄ ⦃uuid : UuidParse⦄ (s : AppState F T)
    (request : Request T) (chance : Chance F T) where
  abbrev pub post_transaction : Option (NormalizedTransaction T) → AppState F T × Response F T
  post_transaction none = (s, rejected)
  post_transaction (some tx) = evaluation_response s (ingest_and_evaluate s tx chance.draws)

  abbrev pub with_alert :
      Option Uuid → (Uuid → AppState F T × Response F T) → AppState F T × Response F T
  with_alert none handler = (s, rejected)
  with_alert (some alert_id) handler = handler alert_id

  abbrev pub with_decision :
      Option DecisionRequest
      → (DecisionRequest → AppState F T × Response F T)
      → AppState F T × Response F T
  with_decision none handler = (s, rejected)
  with_decision (some req) handler = handler req

  -- The extractors of `submit_decision` run in the order of its arguments: the user first.
  abbrev pub post_decision : Result AuthUser AuthError → String → AppState F T × Response F T
  post_decision (fail e) id = (s, unauthenticated e)
  post_decision (ok user) id = with_alert (uuid.parse_uuid id) (λ alert_id.
      with_decision request.decision_body (λ req. decision_response (
        submit_decision s user alert_id req chance.decided_at chance.now chance.first
          chance.second)))

  abbrev pub handled : Endpoint → AppState F T × Response F T
  handled health = (s, plain "ok")
  handled metrics = (s, plain (render_prometheus_text s.metrics))
  handled transactions = post_transaction request.transaction_body
  handled alerts = (s, responded alert_list (list_alerts s request.status))
  handled audit_verify = (s, integrity (verify_audit_integrity s))
  handled (transaction tx_hash) = (s, responded one_transaction (get_transaction s tx_hash))
  handled (evaluation tx_hash) = stored_response s (evaluate_transaction s tx_hash chance.draws)
  handled (alert id) =
      with_alert (uuid.parse_uuid id) (λ alert_id. (s, responded one_alert (get_alert s alert_id)))
  handled (investigation id) = with_alert (uuid.parse_uuid id) (λ alert_id.
      advice_response
        (get_ai_investigation s chance.primary chance.now alert_id chance.first chance.second))
  handled (decision id) = post_decision (from_request_parts s.auth request.authorization) id
  handled (alert_audit id) =
      with_alert (uuid.parse_uuid id) (λ alert_id. (s, trail (get_alert_audit s alert_id)))

  abbrev pub handled_if : Option Endpoint → AppState F T × Response F T
  handled_if none = (s, no_route)
  handled_if (some endpoint) =
      if allows endpoint request.method then handled endpoint else (s, no_method)

  -- one request
  unfoldable pub serve : AppState F T × Response F T
  serve = handled_if (matched request.segments)
