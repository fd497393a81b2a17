-- ===== src/Api/Effects.antt =====
-- What a step of the handlers of crates/api/src/handlers.rs does to the alert manager and to the rest
-- of the state.
use mathlib.Core.Option
use stellartrace.Prelude.{
  ◌≡◌, refl, subst, Option, none, some, String, List, [], ◌∷◌, nat_eq, string_eq, arith,
}
use stellartrace.Prelude.HashMap.{get}
use stellartrace.Prelude.Outcome.{panicked, unfinished, done, done, Run, Result, ok, fail}
use stellartrace.Platform.{Unicode, Float, Uuid}
use stellartrace.Common.{Alert, NormalizedTransaction, TriggeredRule, AiRecommendation}
use stellartrace.Rules.{evaluate}
use stellartrace.Scoring.{compute_score, default_weights}
use stellartrace.Audit.{Hashing}
use stellartrace.Alerts.{AlertManager, AlertError, Stamp, get_alert as alert_in}
use stellartrace.Advisor.{investigate, build_context, AiAdvisor, AiContext}
use stellartrace.Api.Error.{UuidText, ApiError}
use stellartrace.Api.State.{AppState}
use stellartrace.Api.Evaluation.{
  Draws, EvaluationResult, evaluate_transaction, run_evaluation, evaluated, respond, respond_if,
  context_of,
}
use stellartrace.Api.Review.{history_summary, context_sent, advised_by, settled, investigated_if}
use stellartrace.Api.Steps.{Effect, same, told, created, remarked}

-- What `map` returns comes of what it is given.
pub map-some :
    {A B : Type 0} (f : A → B) (P : B → Type 0) (o : Option A) {b : B}
    → Option.map f o ≡ some b
    → ((a : A) → o ≡ some a → P (f a))
    → P b
map-some f P none e k = absurd (ground arith)
map-some f P (some a) {b} e k = subst P (Option.some-injective (f a) b e) (k a refl)

module _ {F T : Type 0} ⦃f64 : Float F⦄ ⦃hashing : Hashing F T⦄ ⦃text : UuidText⦄ where
  respond-Effect :
      (s : AppState F T) (tx : NormalizedTransaction T) (draws : Draws T)
      (rules : List TriggeredRule) (score : F)
      → alert_in s.manager draws.alert_id ≡ none
      → Effect s.manager (respond s tx draws rules score).0.manager
  respond-Effect s tx draws [] score fresh = same
  respond-Effect s tx draws (t ∷ ts) score fresh = created tx (t ∷ ts) score _ draws fresh

  respond_if-Effect :
      (s : AppState F T) (tx : NormalizedTransaction T) (draws : Draws T)
      (rules : List TriggeredRule) (score : Option F) {done : AppState F T × EvaluationResult F T}
      → alert_in s.manager draws.alert_id ≡ none
      → respond_if s tx draws rules score ≡ some done
      → Effect s.manager done.0.manager
  respond_if-Effect s tx draws rules none fresh e = absurd (ground arith)
  respond_if-Effect s tx draws rules (some score) {done} fresh e =
      subst (λ d. Effect s.manager d.0.manager) (Option.some-injective _ done e)
        (respond-Effect s tx draws rules score fresh)

  pub run_evaluation-Effect :
      (s : AppState F T) (tx : NormalizedTransaction T) (draws : Draws T)
      {done : AppState F T × EvaluationResult F T}
      → alert_in s.manager draws.alert_id ≡ none
      → run_evaluation s tx draws ≡ some done
      → Effect s.manager done.0.manager
  unfolding run_evaluation
  run_evaluation-Effect s tx draws fresh e =
      respond_if-Effect s tx draws (evaluate s.rules_engine tx (context_of s tx) s.rules_config) _
        fresh e

  -- An evaluation leaves the histories, the flags, the users and the advice as they are.
  abbrev pub IsFrame : AppState F T → AppState F T → Type 0
  IsFrame s s' =
      (s'.tx_history ≡ s.tx_history)
      × ((s'.transactions ≡ s.transactions)
          × ((s'.flagged_accounts ≡ s.flagged_accounts)
              × ((s'.auth ≡ s.auth) × (s'.ai_recommendations ≡ s.ai_recommendations))))

  respond-IsFrame :
      (s : AppState F T) (tx : NormalizedTransaction T) (draws : Draws T)
      (rules : List TriggeredRule) (score : F)
      → IsFrame s (respond s tx draws rules score).0
  respond-IsFrame s tx draws [] score = (refl, (refl, (refl, (refl, refl))))
  respond-IsFrame s tx draws (t ∷ ts) score = (refl, (refl, (refl, (refl, refl))))

  pub run_evaluation-IsFrame :
      (s : AppState F T) (tx : NormalizedTransaction T) (draws : Draws T)
      {done : AppState F T × EvaluationResult F T}
      → run_evaluation s tx draws ≡ some done
      → IsFrame s done.0
  unfolding run_evaluation
  run_evaluation-IsFrame s tx draws {done} e =
      responded
        (compute_score (evaluate s.rules_engine tx (context_of s tx) s.rules_config)
          default_weights)
        e
    where
      responded :
          (score : Option F)
          → respond_if s tx draws
              (evaluate s.rules_engine tx (context_of s tx) s.rules_config)
              score
            ≡ some done
          → IsFrame s done.0
      responded none e = absurd (ground arith)
      responded (some score) e =
          subst (λ d. IsFrame s d.0) (Option.some-injective _ done e)
            (respond-IsFrame s tx draws
              (evaluate s.rules_engine tx (context_of s tx) s.rules_config) score)

  pub evaluate_transaction-done :
      (P : AppState F T → Type 0) (s : AppState F T) (tx_hash : String) (draws : Draws T)
      {done : AppState F T × Result (EvaluationResult F T) ApiError}
      → evaluate_transaction s tx_hash draws ≡ some done
      → P s
      → ((tx : NormalizedTransaction T) (d : AppState F T × EvaluationResult F T)
          → run_evaluation s tx draws ≡ some d
          → P d.0)
      → P done.0
  unfolding evaluate_transaction
  evaluate_transaction-done P s tx_hash draws {done} e kept other =
      found (get tx_hash s.transactions) e
    where
      found :
          (o : Option (NormalizedTransaction T))
          → evaluated s tx_hash draws o ≡ some done
          → P done.0
      found none e = subst (λ d. P d.0) (Option.some-injective _ done e) kept
      found (some tx) e =
          map-some _ (λ d. P d.0) (run_evaluation s tx draws) e (λ d ran. other tx d ran)

  pub settled-manager :
      (s : AppState F T) (r : AlertManager F T × Result (Alert F T) AlertError)
      → (settled s r).0.manager ≡ r.0
  settled-manager s (m, ok a) = refl
  settled-manager s (m, fail e) = refl

  -- A recommendation is logged and kept, and nothing else is.
  recommended-Effect :
      (s : AppState F T) (alert_id : Uuid) (a : Alert F T) (context : AiContext F T)
      (first second : Stamp T) (r : Run (AiRecommendation F T))
      → alert_in s.manager alert_id ≡ some a
      → Effect s.manager
          (advised_by (context_sent s alert_id a context first) alert_id a second r).0.manager
  recommended-Effect s alert_id a context first second panicked e = told alert_id a _ first e
  recommended-Effect s alert_id a context first second unfinished e = told alert_id a _ first e
  recommended-Effect s alert_id a context first second (done recommendation) e =
      remarked alert_id a _ _ _ first second e

  recommended-flagged :
      (s : AppState F T) (alert_id : Uuid) (a : Alert F T) (context : AiContext F T)
      (first second : Stamp T) (r : Run (AiRecommendation F T))
      → (advised_by
          (context_sent s alert_id a context first)
          alert_id
          a
          second
          r).0.flagged_accounts
        ≡ s.flagged_accounts
  recommended-flagged s alert_id a context first second panicked = refl
  recommended-flagged s alert_id a context first second unfinished = refl
  recommended-flagged s alert_id a context first second (done recommendation) = refl

  module _ ⦃unicode : Unicode⦄ (s : AppState F T) (primary : AiAdvisor F T) (now : T) where
    pub advised-Effect :
        (alert_id : Uuid) (first second : Stamp T) (found : Option (Alert F T))
        → alert_in s.manager alert_id ≡ found
        → Effect s.manager (investigated_if s primary now alert_id found first second).0.manager
    advised-Effect alert_id first second none e = same
    advised-Effect alert_id first second (some a) e =
        let context = build_context a (history_summary s a) in
        recommended-Effect s alert_id a context first second (investigate primary now context) e

    pub advised-flagged :
        (alert_id : Uuid) (first second : Stamp T) (found : Option (Alert F T))
        → (investigated_if s primary now alert_id found first second).0.flagged_accounts
          ≡ s.flagged_accounts
    advised-flagged alert_id first second none = refl
    advised-flagged alert_id first second (some a) =
        let context = build_context a (history_summary s a) in
        recommended-flagged s alert_id a context first second (investigate primary now context)
