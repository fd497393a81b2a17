-- ===== src/Api/Openings.antt =====
-- Which requests to crates/api bring an alert under an identifier that no alert had.
use mathlib.Core.Option
use stellartrace.Prelude.{
  ◌≡◌, refl, sym, ◌∙◌, subst, Option, none, some, String, List, [], ◌∷◌, string_eq, nat_eq, ◌==◌,
  ◌⊎◌, inl, inr, Bool-cases, arith, if-true, if-false,
}
use stellartrace.Prelude.HashMap.{get-insert}
use stellartrace.Prelude.Outcome.{Result, Run, done, panicked, unfinished}
use stellartrace.Platform.{Float, Uuid, Unicode}
use stellartrace.Common.{Alert, opened, NormalizedTransaction, TriggeredRule, AiRecommendation}
use stellartrace.Audit.{Hashing}
use stellartrace.Rules.{evaluate}
use stellartrace.Scoring.{compute_score, default_weights}
use stellartrace.Alerts.{get_alert as alert_in, Stamp, create_alert}
use stellartrace.Advisor.{AiAdvisor, investigate, build_context, AiContext}
use stellartrace.Api.Error.{UuidText, ApiError}
use stellartrace.Api.State.{AppState, record_transaction}
use stellartrace.Api.Evaluation.{
  Draws, EvaluationResult, run_evaluation, respond, respond_if, context_of, ingest_and_evaluate,
  evaluate_transaction, record_evaluated,
}
use stellartrace.Api.Review.{
  get_ai_investigation, investigated_if, advised_by, context_sent, history_summary,
}
use stellartrace.Api.Effects.{map-some, evaluate_transaction-done}

module _ {F T : Type 0} ⦃f64 : Float F⦄ ⦃hashing : Hashing F T⦄ (j drawn : Uuid) where
  -- The identifier is free, or it was drawn for the open alert that now has it.
  abbrev pub IsFreeOrOpened : AppState F T → Type 0
  IsFreeOrOpened s =
      (alert_in s.manager j ≡ none)
      ⊎ ((a : Alert F T) × (alert_in s.manager j ≡ some a) × (a.status ≡ opened) × (j ≡ drawn))

module _ {F T : Type 0} ⦃f64 : Float F⦄ ⦃hashing : Hashing F T⦄ (j : Uuid) (s : AppState F T)
    (free : alert_in s.manager j ≡ none) (draws : Draws T) where
  respond-IsFreeOrOpened :
      (tx : NormalizedTransaction T) (rules : List TriggeredRule) (score : F)
      → IsFreeOrOpened j draws.alert_id (respond s tx draws rules score).0
  unfolding create_alert
  respond-IsFreeOrOpened tx [] score = inl free
  respond-IsFreeOrOpened tx (t ∷ ts) score = elim (Bool-cases (draws.alert_id == j)) [
    | inl e ↦ inr (
      _,
      get-insert draws.alert_id j _ s.manager.alerts ∙ if-true _ _ _ e,
      refl,
      sym ((nat_eq.test_iff draws.alert_id j).0 e),
    )
    | inr e ↦ inl (get-insert draws.alert_id j _ s.manager.alerts ∙ if-false _ _ _ e ∙ free)
  ]

  respond_if-IsFreeOrOpened :
      (tx : NormalizedTransaction T) (rules : List TriggeredRule) (score : Option F)
      {done : AppState F T × EvaluationResult F T}
      → respond_if s tx draws rules score ≡ some done
      → IsFreeOrOpened j draws.alert_id done.0
  respond_if-IsFreeOrOpened tx rules none e = absurd (ground arith)
  respond_if-IsFreeOrOpened tx rules (some score) {done} e =
      subst (λ d. IsFreeOrOpened j draws.alert_id d.0) (Option.some-injective _ done e)
        (respond-IsFreeOrOpened tx rules score)

  run_evaluation-IsFreeOrOpened :
      (tx : NormalizedTransaction T) {done : AppState F T × EvaluationResult F T}
      → run_evaluation s tx draws ≡ some done
      → IsFreeOrOpened j draws.alert_id done.0
  unfolding run_evaluation
  run_evaluation-IsFreeOrOpened tx e =
      respond_if-IsFreeOrOpened tx (evaluate s.rules_engine tx (context_of s tx) s.rules_config)
        (compute_score (evaluate s.rules_engine tx (context_of s tx) s.rules_config)
          default_weights)
        e

  pub ingest_and_evaluate-IsFreeOrOpened :
      (tx : NormalizedTransaction T) {done : AppState F T × EvaluationResult F T}
      → ingest_and_evaluate s tx draws ≡ some done
      → IsFreeOrOpened j draws.alert_id done.0
  unfolding ingest_and_evaluate record_transaction
  ingest_and_evaluate-IsFreeOrOpened tx e =
      map-some (record_evaluated tx) (λ d. IsFreeOrOpened j draws.alert_id d.0)
        (run_evaluation s tx draws) e (λ d ran. run_evaluation-IsFreeOrOpened tx ran)

  pub evaluate_transaction-IsFreeOrOpened :
      ⦃text : UuidText⦄
      → (tx_hash : String) {done : AppState F T × Result (EvaluationResult F T) ApiError}
      → evaluate_transaction s tx_hash draws ≡ some done
      → IsFreeOrOpened j draws.alert_id done.0
  evaluate_transaction-IsFreeOrOpened tx_hash e =
      evaluate_transaction-done (IsFreeOrOpened j draws.alert_id) s tx_hash draws e (inl free)
        (λ tx d ran. run_evaluation-IsFreeOrOpened tx ran)

module _ {F T : Type 0} ⦃f64 : Float F⦄ ⦃hashing : Hashing F T⦄ ⦃text : UuidText⦄
    ⦃unicode : Unicode⦄ where
  advised_by-alerts :
      (s : AppState F T) (alert_id : Uuid) (a : Alert F T) (context : AiContext F T)
      (first second : Stamp T) (r : Run (AiRecommendation F T))
      → (advised_by (context_sent s alert_id a context first) alert_id a second r).0.manager.alerts
        ≡ s.manager.alerts
  advised_by-alerts s alert_id a context first second panicked = refl
  advised_by-alerts s alert_id a context first second unfinished = refl
  advised_by-alerts s alert_id a context first second (done recommendation) = refl

  -- Advice leaves the store of alerts as it is.
  pub get_ai_investigation-alerts :
      (s : AppState F T) (primary : AiAdvisor F T) (now : T) (alert_id : Uuid)
      (first second : Stamp T)
      → (get_ai_investigation s primary now alert_id first second).0.manager.alerts
        ≡ s.manager.alerts
  unfolding get_ai_investigation
  get_ai_investigation-alerts s primary now alert_id first second =
      of_alert (alert_in s.manager alert_id)
    where
      of_alert :
          (found : Option (Alert F T))
          → (investigated_if s primary now alert_id found first second).0.manager.alerts
            ≡ s.manager.alerts
      of_alert none = refl
      of_alert (some a) =
          let context = build_context a (history_summary s a) in
          advised_by-alerts s alert_id a context first second (investigate primary now context)
