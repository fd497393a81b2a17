-- ===== src/Api/Posted.antt =====
-- Requests to the router of crates/api/src/lib.rs, by whether an identifier that no alert has is taken.
use mathlib.Core.Option
use stellartrace.Prelude.{
  Bool, ◌≡◌, refl, ap, ◌∙◌, true, false, Option, none, some, String, string_eq, nat_eq, ◌==◌, ◌⊎◌,
  inl, inr, Bool-cases, if◌then◌else◌,
}
use stellartrace.Prelude.HashMap.{get}
use stellartrace.Prelude.Outcome.{Result, ok, fail}
use stellartrace.Platform.{Float, Chrono, Uuid, Unicode}
use stellartrace.Common.{Alert, opened, can_decide, NormalizedTransaction}
use stellartrace.Audit.{Hashing}
use stellartrace.Alerts.{get_alert as alert_in}
use stellartrace.Api.Auth.{AuthUser, AuthError, from_request_parts}
use stellartrace.Api.Error.{UuidText, ApiError}
use stellartrace.Api.State.{AppState}
use stellartrace.Api.Evaluation.{ingest_and_evaluate, evaluate_transaction, EvaluationResult}
use stellartrace.Api.Review.{DecisionRequest, submit_decision, decision_of, get_ai_investigation}
use stellartrace.Api.Router.{
  Response, post, Endpoint, health, metrics, transactions, alerts, audit_verify, transaction,
  evaluation, alert, investigation, decision, alert_audit, matched, Request, Chance, UuidParse,
  allows, handled, handled_if, serve, post_decision, evaluation_response, stored_response,
  with_alert, with_decision, advice_response, decision_response, post_transaction,
}
use stellartrace.Api.Paths.{Evaluates}
use stellartrace.Api.Calm.{advice_response-state}
use stellartrace.Api.Served.{posting, refused_decision, allowed_decision}
use stellartrace.Api.Authority.{decision-get}
use stellartrace.Api.Openings.{
  IsFreeOrOpened, ingest_and_evaluate-IsFreeOrOpened, evaluate_transaction-IsFreeOrOpened,
  get_ai_investigation-alerts,
}

module _ {F T : Type 0} ⦃f64 : Float F⦄ ⦃chrono : Chrono T⦄ ⦃hashing : Hashing F T⦄
    ⦃text : UuidText⦄ ⦃unicode : Unicode⦄ ⦃uuid : UuidParse⦄ (s : AppState F T)
    (request : Request T) (chance : Chance F T) (j : Uuid)
    (free : alert_in s.manager j ≡ none) where
  -- After a request the identifier is free, or the request was a POST to a path of the evaluation.
  abbrev pub IsFreeOrPosted : Option Endpoint → AppState F T → Type 0
  IsFreeOrPosted o s' =
      (alert_in s'.manager j ≡ none)
      ⊎ ((request.method ≡ post)
          × Evaluates o
          × (a : Alert F T) × (alert_in s'.manager j ≡ some a)
          × (a.status ≡ opened)
          × (j ≡ chance.draws.alert_id))

  posted :
      (o : Option Endpoint) (s' : AppState F T)
      → request.method ≡ post
      → Evaluates o
      → IsFreeOrOpened j chance.draws.alert_id s'
      → IsFreeOrPosted o s'
  posted o s' by_post path (inl still) = inl still
  posted o s' by_post path (inr (a, found, is_open, drawn)) =
      inr (by_post, path, a, found, is_open, drawn)

  evaluation_response-free :
      (o : Option (AppState F T × EvaluationResult F T))
      → ((d : AppState F T × EvaluationResult F T)
          → o ≡ some d
          → IsFreeOrOpened j chance.draws.alert_id d.0)
      → IsFreeOrOpened j chance.draws.alert_id (evaluation_response s o).0
  evaluation_response-free none each = inl free
  evaluation_response-free (some (s', r)) each = each (s', r) refl

  stored_response-free :
      (o : Option (AppState F T × Result (EvaluationResult F T) ApiError))
      → ((d : AppState F T × Result (EvaluationResult F T) ApiError)
          → o ≡ some d
          → IsFreeOrOpened j chance.draws.alert_id d.0)
      → IsFreeOrOpened j chance.draws.alert_id (stored_response s o).0
  stored_response-free none each = inl free
  stored_response-free (some (s', r)) each = each (s', r) refl

  post_transaction-free :
      (body : Option (NormalizedTransaction T))
      → IsFreeOrOpened j chance.draws.alert_id (post_transaction s request chance body).0
  post_transaction-free none = inl free
  post_transaction-free (some tx) =
      evaluation_response-free (ingest_and_evaluate s tx chance.draws)
        (λ d ran. ingest_and_evaluate-IsFreeOrOpened j s free chance.draws tx ran)

  investigation-free :
      (o : Option Uuid)
      → alert_in
          (with_alert s request chance o (λ alert_id. advice_response (
            get_ai_investigation s chance.primary chance.now alert_id chance.first
              chance.second))).0.manager
          j
        ≡ none
  investigation-free none = free
  investigation-free (some alert_id) =
      let r =
        get_ai_investigation s chance.primary chance.now alert_id chance.first chance.second in
      ap (λ s'. alert_in s'.manager j) (advice_response-state r)
      ∙ ap (get j) (
          get_ai_investigation-alerts s chance.primary chance.now alert_id chance.first
            chance.second)
      ∙ free

  read-free :
      (o : Option Uuid) (f : Uuid → Response F T)
      → alert_in (with_alert s request chance o (λ alert_id. (s, f alert_id))).0.manager j ≡ none
  read-free none f = free
  read-free (some alert_id) f = free

  undecided :
      (same : Bool) (f : Alert F T → Alert F T) (o : Option (Alert F T))
      → o ≡ none
      → (if same then Option.map f o else o) ≡ none
  undecided true f o e = ap (Option.map f) e
  undecided false f o e = e

  submit_decision-free :
      (user : AuthUser) (alert_id : Uuid) (req : DecisionRequest)
      → alert_in
          (submit_decision s user alert_id req chance.decided_at chance.now chance.first
            chance.second).0.manager
          j
        ≡ none
  submit_decision-free user alert_id req = elim (Bool-cases (can_decide user.role)) [
    | inl can ↦
        ap (λ m. alert_in m j) (allowed_decision s request chance user alert_id req can)
        ∙ decision-get s.manager (decision_of user alert_id req chance.decided_at) chance.now
            chance.first chance.second j
        ∙ undecided (alert_id == j) _ (alert_in s.manager j) free
    | inr not_can ↦
        ap (λ m. alert_in m j) (refused_decision s request chance user alert_id req not_can) ∙ free
  ]

  post_decision-free :
      (user : Result AuthUser AuthError) (id : String)
      → alert_in (post_decision s request chance user id).0.manager j ≡ none
  post_decision-free (fail e) id = free
  post_decision-free (ok user) id = parsed (uuid.parse_uuid id) request.decision_body
    where
      parsed :
          (o : Option Uuid) (p : Option DecisionRequest)
          → alert_in
              (with_alert s request chance o (λ alert_id. with_decision s request chance p (λ req.
                decision_response (
                  submit_decision s user alert_id req chance.decided_at chance.now chance.first
                    chance.second)))).0.manager
              j
            ≡ none
      parsed none p = free
      parsed (some alert_id) none = free
      parsed (some alert_id) (some req) = submit_decision-free user alert_id req

  handled-free :
      (e : Endpoint)
      → allows e request.method ≡ true
      → IsFreeOrPosted (some e) (handled s request chance e).0
  handled-free health ok_method = inl free
  handled-free metrics ok_method = inl free
  handled-free transactions ok_method =
      posted (some transactions) (post_transaction s request chance request.transaction_body).0
        (posting s request chance request.method ok_method) (inl refl)
        (post_transaction-free request.transaction_body)
  handled-free alerts ok_method = inl free
  handled-free audit_verify ok_method = inl free
  handled-free (transaction tx_hash) ok_method = inl free
  handled-free (evaluation tx_hash) ok_method =
      posted (some (evaluation tx_hash))
        (stored_response s (evaluate_transaction s tx_hash chance.draws)).0
        (posting s request chance request.method ok_method) (inr (tx_hash, refl))
        (stored_response-free (evaluate_transaction s tx_hash chance.draws)
          (λ d ran. evaluate_transaction-IsFreeOrOpened j s free chance.draws tx_hash ran))
  handled-free (alert id) ok_method = inl (read-free (uuid.parse_uuid id) _)
  handled-free (investigation id) ok_method = inl (investigation-free (uuid.parse_uuid id))
  handled-free (decision id) ok_method =
      inl (post_decision-free (from_request_parts s.auth request.authorization) id)
  handled-free (alert_audit id) ok_method = inl (read-free (uuid.parse_uuid id) _)

  handled_if-free : (o : Option Endpoint) → IsFreeOrPosted o (handled_if s request chance o).0
  handled_if-free none = inl free
  handled_if-free (some e) = elim (Bool-cases (allows e request.method)) [
    | inl allowed ↦ rw allowed (handled-free e allowed)
    | inr other ↦ rw other (inl free)
  ]

  -- A request takes a free identifier for an alert only if it is a POST to a path of the evaluation
  -- that has drawn it, and the alert is open.
  pub serve-IsFreeOrPosted : IsFreeOrPosted (matched request.segments) (serve s request chance).0
  unfolding serve
  serve-IsFreeOrPosted = handled_if-free (matched request.segments)
