-- ===== src/Api/Calm.antt =====
-- Requests to crates/api that decide nothing: what they do to the state.
use stellartrace.Prelude.{
  ◌≡◌, refl, sym, subst, Option, none, some, String, string_eq, nat_eq, ◌⊎◌, inl, inr,
}
use stellartrace.Prelude.Outcome.{panicked, unfinished, done, done, Run, Result}
use stellartrace.Platform.{Float, Chrono, Uuid, Unicode}
use stellartrace.Common.{AiRecommendation, NormalizedTransaction}
use stellartrace.Audit.{Hashing}
use stellartrace.Alerts.{get_alert as alert_in}
use stellartrace.Api.Error.{ApiError, UuidText}
use stellartrace.Api.State.{record_transaction, AppState}
use stellartrace.Api.Evaluation.{
  EvaluationResult, ingest_and_evaluate, evaluate_transaction, run_evaluation, record_evaluated,
}
use stellartrace.Api.Review.{get_ai_investigation}
use stellartrace.Api.Router.{
  Response, Request, Chance, UuidParse, post_transaction, with_alert, evaluation_response,
  stored_response, advice_response,
}
use stellartrace.Api.Steps.{Effect, same, Step, ingest_evaluated, stored_evaluated, advised}
use stellartrace.Api.Effects.{
  run_evaluation-Effect, evaluate_transaction-done, map-some, advised-Effect,
}

module _ {F T : Type 0} where
  pub advice_response-state :
      (r : AppState F T × Run (Result (AiRecommendation F T) ApiError))
      → (advice_response r).0 ≡ r.0
  advice_response-state (s, panicked) = refl
  advice_response-state (s, unfinished) = refl
  advice_response-state (s, done a) = refl

module _ {F T : Type 0} ⦃f64 : Float F⦄ ⦃hashing : Hashing F T⦄ ⦃text : UuidText⦄
    ⦃unicode : Unicode⦄ (s : AppState F T) where
  -- Nothing happens to the state, or a step that decides nothing.
  abbrev pub Calm : AppState F T → Type 0
  Calm s' = (s' ≡ s) ⊎ (Step s s' × Effect s.manager s'.manager)

  pub Calm-Effect : {s' : AppState F T} → Calm s' → Effect s.manager s'.manager
  Calm-Effect (inl idle) = subst (λ x. Effect s.manager x.manager) (sym idle) same
  Calm-Effect (inr (step, effect)) = effect

module _ {F T : Type 0} ⦃f64 : Float F⦄ ⦃chrono : Chrono T⦄ ⦃hashing : Hashing F T⦄
    ⦃text : UuidText⦄ ⦃unicode : Unicode⦄ ⦃uuid : UuidParse⦄ (s : AppState F T)
    (request : Request T) (chance : Chance F T) where
  evaluated-Calm :
      (o : Option (AppState F T × EvaluationResult F T))
      → ((s' : AppState F T) (r : EvaluationResult F T)
          → o ≡ some (s', r)
          → Step s s' × Effect s.manager s'.manager)
      → Calm s (evaluation_response s o).0
  evaluated-Calm none each = inl refl
  evaluated-Calm (some (s', r)) each = inr (each s' r refl)

  stored-Calm :
      (o : Option (AppState F T × Result (EvaluationResult F T) ApiError))
      → ((s' : AppState F T) (r : Result (EvaluationResult F T) ApiError)
          → o ≡ some (s', r)
          → Step s s' × Effect s.manager s'.manager)
      → Calm s (stored_response s o).0
  stored-Calm none each = inl refl
  stored-Calm (some (s', r)) each = inr (each s' r refl)

  pub post_transaction-Calm :
      alert_in s.manager chance.draws.alert_id ≡ none
      → (body : Option (NormalizedTransaction T))
      → Calm s (post_transaction s request chance body).0
  unfolding ingest_and_evaluate record_transaction
  post_transaction-Calm fresh none = inl refl
  post_transaction-Calm fresh (some tx) =
      evaluated-Calm (ingest_and_evaluate s tx chance.draws) (λ s' r e. (
        ingest_evaluated tx chance.draws fresh e,
        map-some (record_evaluated tx) (λ d. Effect s.manager d.0.manager)
            (run_evaluation s tx chance.draws) e
            (λ d ran. run_evaluation-Effect s tx chance.draws fresh ran),
      ))

  pub evaluate-Calm :
      alert_in s.manager chance.draws.alert_id ≡ none
      → (tx_hash : String)
      → Calm s (stored_response s (evaluate_transaction s tx_hash chance.draws)).0
  evaluate-Calm fresh tx_hash = stored-Calm (evaluate_transaction s tx_hash chance.draws) (λ s' r e.
      (
        stored_evaluated tx_hash chance.draws fresh e,
        evaluate_transaction-done (λ s'. Effect s.manager s'.manager) s tx_hash chance.draws e same
            (λ tx d ran. run_evaluation-Effect s tx chance.draws fresh ran),
      ))

  pub investigation-Calm :
      (o : Option Uuid)
      → Calm s
          (with_alert s request chance o (λ alert_id. advice_response (
            get_ai_investigation s chance.primary chance.now alert_id chance.first
              chance.second))).0
  unfolding get_ai_investigation
  investigation-Calm none = inl refl
  investigation-Calm (some alert_id) =
      subst (Calm s)
        (sym (
          advice_response-state
            (get_ai_investigation s chance.primary chance.now alert_id chance.first chance.second)))
        (inr (
          advised chance.primary chance.now alert_id chance.first chance.second,
          advised-Effect s chance.primary chance.now alert_id chance.first chance.second
              (alert_in s.manager alert_id) refl,
        ))

  pub with_alert-Calm :
      (o : Option Uuid) (f : Uuid → Response F T)
      → Calm s (with_alert s request chance o (λ alert_id. (s, f alert_id))).0
  with_alert-Calm none f = inl refl
  with_alert-Calm (some alert_id) f = inl refl
