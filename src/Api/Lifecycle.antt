-- ===== src/Api/Lifecycle.antt =====
-- Sequences of requests to the router of crates/api/src/lib.rs, as a machine sees them that knows of
-- each identifier only the status of its alert.
use mathlib.Core.Option
use stellartrace.Prelude.{
  true, ◌≡◌, refl, Bool-cases, ap, ◌∙◌, subst, Option, none, some, String, List, [], ◌∷◌, string_eq,
  nat_eq, inl, inr,
}
use stellartrace.Prelude.Outcome.{Result, ok, fail, Run, done, panicked, unfinished}
use stellartrace.Platform.{Float, Chrono, Uuid, Unicode}
use stellartrace.Common.{Alert, AiRecommendation, opened, InvestigationStatus, can_decide}
use stellartrace.Audit.{Hashing}
use stellartrace.Alerts.{get_alert as alert_in, AlertManager, AlertError, Stamp}
use stellartrace.Advisor.{AiAdvisor, investigate, build_context, AiContext}
use stellartrace.Api.Auth.{AuthUser, AuthRegistry, from_request_parts}
use stellartrace.Api.Error.{UuidText}
use stellartrace.Api.State.{AppState, record_transaction}
use stellartrace.Api.Evaluation.{
  ingest_transaction, ingest_and_evaluate, run_evaluation, record_evaluated,
}
use stellartrace.Api.Review.{
  DecisionRequest, submit_decision, get_ai_investigation, investigated_if, advised_by, context_sent,
  history_summary, settled,
}
use stellartrace.Api.Steps.{Step, ingested, ingest_evaluated, stored_evaluated, advised, decided}
use stellartrace.Api.Effects.{map-some, run_evaluation-IsFrame, evaluate_transaction-done}
use stellartrace.Api.Router.{post, Request, Chance, UuidParse, serve}
use stellartrace.Api.Kept.{IsKept, serve-IsKept}
use stellartrace.Api.Paths.{IsEvaluationPath, evaluation_path}
use stellartrace.Api.Posted.{serve-IsFreeOrPosted}
use stellartrace.Api.Requests.{serve_all, AreFresh, serve-Step}

module _ {F T : Type 0} where
  -- the status of the alert with an identifier
  abbrev pub status_in : AppState F T → Uuid → Option InvestigationStatus
  status_in s j = Option.map (λ a. a.status) (alert_in s.manager j)

module _ {F T : Type 0} ⦃uuid : UuidParse⦄ (registry : AuthRegistry) (j : Uuid) where
  -- What requests may do to the alert with the identifier: nothing; open it, by a POST to a path of
  -- the evaluation that draws the identifier while no alert has it; or decide on it, by a POST to its
  -- decision path with a decision as the body and a token of the registry whose role may decide.
  pub data Life
      : List (Request T × Chance F T)
        → Option InvestigationStatus
        → Option InvestigationStatus
        → Type 0 where
    ended : {status : Option InvestigationStatus} → Life [] status status
    passed :
        {request : Request T} {chance : Chance F T} {rest : List (Request T × Chance F T)}
        {status last : Option InvestigationStatus}
        → Life rest status last
        → Life ((request, chance) ∷ rest) status last
    opens :
        {request : Request T} {chance : Chance F T} {rest : List (Request T × Chance F T)}
        {last : Option InvestigationStatus}
        → request.method ≡ post
        → IsEvaluationPath request.segments
        → j ≡ chance.draws.alert_id
        → Life rest (some opened) last
        → Life ((request, chance) ∷ rest) none last
    decides :
        {request : Request T} {chance : Chance F T} {rest : List (Request T × Chance F T)}
        {status : InvestigationStatus} {last : Option InvestigationStatus}
        → request.method ≡ post
        → (id : String) → request.segments ≡ "api" ∷ "alerts" ∷ id ∷ "decision" ∷ []
        → uuid.parse_uuid id ≡ some j
        → (user : AuthUser) → from_request_parts registry request.authorization ≡ ok user
        → can_decide user.role ≡ true
        → (req : DecisionRequest) → request.decision_body ≡ some req
        → Life rest (some req.decision) last
        → Life ((request, chance) ∷ rest) (some status) last

module _ {F T : Type 0} ⦃f64 : Float F⦄ ⦃hashing : Hashing F T⦄ ⦃text : UuidText⦄
    ⦃unicode : Unicode⦄ where
  advised_by-auth :
      (s : AppState F T) (alert_id : Uuid) (a : Alert F T) (context : AiContext F T)
      (first second : Stamp T) (r : Run (AiRecommendation F T))
      → (advised_by (context_sent s alert_id a context first) alert_id a second r).0.auth ≡ s.auth
  advised_by-auth s alert_id a context first second panicked = refl
  advised_by-auth s alert_id a context first second unfinished = refl
  advised_by-auth s alert_id a context first second (done recommendation) = refl

  investigated_if-auth :
      (s : AppState F T) (primary : AiAdvisor F T) (now : T) (alert_id : Uuid)
      (first second : Stamp T) (found : Option (Alert F T))
      → (investigated_if s primary now alert_id found first second).0.auth ≡ s.auth
  investigated_if-auth s primary now alert_id first second none = refl
  investigated_if-auth s primary now alert_id first second (some a) =
      let context = build_context a (history_summary s a) in
      advised_by-auth s alert_id a context first second (investigate primary now context)

  settled-auth :
      (s : AppState F T) (r : AlertManager F T × Result (Alert F T) AlertError)
      → (settled s r).0.auth ≡ s.auth
  settled-auth s (m, ok a) = refl
  settled-auth s (m, fail e) = refl

  -- No step changes the registry of tokens.
  step-auth : {s s' : AppState F T} → Step s s' → s'.auth ≡ s.auth
  unfolding ingest_transaction ingest_and_evaluate record_transaction get_ai_investigation
      submit_decision
  step-auth (ingested tx) = refl
  step-auth {s} (ingest_evaluated tx draws fresh e) =
      map-some (record_evaluated tx) (λ d. d.0.auth ≡ s.auth) (run_evaluation s tx draws) e
        (λ d ran. (run_evaluation-IsFrame s tx draws ran).1.1.1.0)
  step-auth {s} (stored_evaluated tx_hash draws fresh e) =
      evaluate_transaction-done (λ s'. s'.auth ≡ s.auth) s tx_hash draws e refl
        (λ tx d ran. (run_evaluation-IsFrame s tx draws ran).1.1.1.0)
  step-auth {s} (advised primary now alert_id first second) =
      investigated_if-auth s primary now alert_id first second (alert_in s.manager alert_id)
  step-auth {s} (decided header user alert_id req decided_at now first second known) =
      elim (Bool-cases (can_decide user.role))
        as (λ x.
          (submit_decision s user alert_id req decided_at now first second).0.auth ≡ s.auth) [
            | inl can ↦ rw can (settled-auth s _)
            | inr cannot ↦ rw cannot refl
          ]

module _ {F T : Type 0} ⦃f64 : Float F⦄ ⦃chrono : Chrono T⦄ ⦃hashing : Hashing F T⦄
    ⦃text : UuidText⦄ ⦃unicode : Unicode⦄ ⦃uuid : UuidParse⦄ where
  serve-auth :
      (s : AppState F T) (request : Request T) (chance : Chance F T)
      → alert_in s.manager chance.draws.alert_id ≡ none
      → (serve s request chance).0.auth ≡ s.auth
  serve-auth s request chance fresh = elim (serve-Step s request chance fresh) [
    | inl idle ↦ ap (λ s'. s'.auth) idle
    | inr step ↦ step-auth step
  ]

  -- The life of an alert that is stored goes on by what the request did to it.
  kept-Life :
      (s : AppState F T) (request : Request T) (chance : Chance F T)
      (rest : List (Request T × Chance F T)) (j : Uuid) (last : Option InvestigationStatus)
      (a : Alert F T)
      → (kept : IsKept s request chance j a) → Life s.auth j rest (some kept.now.status) last
      → Life s.auth j ((request, chance) ∷ rest) (some a.status) last
  kept-Life s request chance rest j last a kept life = elim kept.cause [
    | inl same ↦ passed (subst (λ x. Life s.auth j rest (some x.status) last) same life)
    | inr d ↦
        decides d.posted d.id d.path d.parsed d.user d.known d.allowed d.req d.asked
          (subst (λ x. Life s.auth j rest (some x.status) last) d.change life)
  ]

  -- One request begins a life or continues it.
  served-Life :
      (s : AppState F T) (request : Request T) (chance : Chance F T)
      (rest : List (Request T × Chance F T))
      → alert_in s.manager chance.draws.alert_id ≡ none
      → (j : Uuid) (last : Option InvestigationStatus)
      → Life s.auth j rest (status_in (serve s request chance).0 j) last
      → (o : Option (Alert F T)) → alert_in s.manager j ≡ o
      → Life s.auth j ((request, chance) ∷ rest) (Option.map (λ a. a.status) o) last
  served-Life s request chance rest free j last life none absent =
      elim (serve-IsFreeOrPosted s request chance j absent) [
        | inl still ↦
            passed (subst (λ o. Life s.auth j rest (Option.map (λ a. a.status) o) last) still life)
        | inr (by_post, path, a, found, is_open, drawn) ↦
            opens by_post (evaluation_path request.segments path) drawn (
              subst (λ x. Life s.auth j rest x last)
                (ap (Option.map (λ a. a.status)) found ∙ ap some is_open) life)
      ]
  served-Life s request chance rest free j last life (some a) found =
      let kept = serve-IsKept s request chance free j found in
      kept-Life s request chance rest j last a kept
        (subst (λ o. Life s.auth j rest (Option.map (λ a. a.status) o) last) kept.found life)

  -- Over any sequence of requests from any state, malformed and forbidden ones included, each
  -- identifier goes through a life: it takes an alert, which is open, only by a POST to a path of the
  -- evaluation that draws the identifier while it is free; from then on the status changes only by a
  -- POST to the decision path of the alert with a token of the registry whose role may decide, to the
  -- status that its body asks for; and no other request changes it. The identifiers that are drawn for
  -- new alerts are free.
  pub serve_all-Life :
      (requests : List (Request T × Chance F T)) (s : AppState F T)
      → AreFresh s requests
      → (j : Uuid) → Life s.auth j requests (status_in s j) (status_in (serve_all s requests) j)
  unfolding serve_all
  serve_all-Life [] s fresh j = ended
  serve_all-Life ((request, chance) ∷ rest) s (free, later) j =
      let s' = (serve s request chance).0 in
      let last = status_in (serve_all s' rest) j in
      served-Life s request chance rest free j last
        (subst (λ r. Life r j rest (status_in s' j) last) (serve-auth s request chance free)
          (serve_all-Life rest s' later j))
        (alert_in s.manager j) refl
