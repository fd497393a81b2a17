-- ===== src/Api/Advice.antt =====
-- The recommendations that crates/api/src/handlers.rs keeps.
use mathlib.Core.Option
use stellartrace.Prelude.{
  ◌≡◌, refl, sym, ap, ◌∙◌, subst, Option, none, some, nat_eq, string_eq, ◌==◌, ◌⊎◌, inl, inr,
  if◌then◌else◌, if-true, if-false, Bool-cases, arith,
}
use stellartrace.Prelude.HashMap.{get, insert, get-insert, get-nil}
use stellartrace.Prelude.Outcome.{Result, ok, fail, Run, done, panicked, unfinished, Ensures}
use stellartrace.Platform.{Float, Uuid, Unicode, IsIeee}
use stellartrace.Common.{Alert, AiRecommendation, can_decide}
use stellartrace.Audit.{Hashing}
use stellartrace.Alerts.{
  get_alert as alert_in, AlertManager, apply_investigator_decision, AlertError, Stamp,
}
use stellartrace.Advisor.{AiAdvisor, AiContext, build_context, investigate}
use stellartrace.Advisor.Bounds.{IsAdvisory, investigate-IsAdvisory}
use stellartrace.Api.Error.{UuidText}
use stellartrace.Api.State.{record_transaction, AppState}
use stellartrace.Api.Evaluation.{
  ingest_transaction, ingest_and_evaluate, run_evaluation, record_evaluated,
}
use stellartrace.Api.Review.{
  get_ai_investigation, investigated_if, advised_by, context_sent, history_summary, submit_decision,
  settled, decision_of,
}
use stellartrace.Api.Steps.{
  Step, ingested, ingest_evaluated, stored_evaluated, advised, decided, Reachable, start, next,
}
use stellartrace.Api.Effects.{run_evaluation-IsFrame, evaluate_transaction-done, map-some}
use stellartrace.Api.Authority.{step-Persisted}

module _ {F T : Type 0} ⦃f64 : Float F⦄ ⦃hashing : Hashing F T⦄ ⦃text : UuidText⦄
    ⦃unicode : Unicode⦄ where
  -- A step by a recommendation that the service returns for an alert.
  pub record Advised (s s' : AppState F T) : Type 0 where
    pub primary : AiAdvisor F T
    pub now : T
    pub alert_id : Uuid
    pub alert : Alert F T
    pub found : alert_in s.manager alert_id ≡ some alert
    pub context : AiContext F T
    pub recommendation : AiRecommendation F T
    pub answer : investigate primary now context ≡ done recommendation
    pub kept : s'.ai_recommendations ≡ insert alert_id recommendation s.ai_recommendations

  -- What a step does to the recommendations.
  abbrev Kept : AppState F T → AppState F T → Type 0
  Kept s s' = (s'.ai_recommendations ≡ s.ai_recommendations) ⊎ Advised s s'

  settled-Kept :
      (s : AppState F T) (r : AlertManager F T × Result (Alert F T) AlertError)
      → (settled s r).0.ai_recommendations ≡ s.ai_recommendations
  settled-Kept s (m, ok a) = refl
  settled-Kept s (m, fail e) = refl

  advised_by-Kept :
      (s : AppState F T) (primary : AiAdvisor F T) (now : T) (alert_id : Uuid) (a : Alert F T)
      (context : AiContext F T) (first second : Stamp T) (r : Run (AiRecommendation F T))
      → alert_in s.manager alert_id ≡ some a
      → investigate primary now context ≡ r
      → Kept s (advised_by (context_sent s alert_id a context first) alert_id a second r).0
  advised_by-Kept s primary now alert_id a context first second panicked found e = inl refl
  advised_by-Kept s primary now alert_id a context first second unfinished found e = inl refl
  advised_by-Kept s primary now alert_id a context first second (done recommendation) found e =
      inr (record {
        primary = primary;
        now = now;
        alert_id = alert_id;
        alert = a;
        found = found;
        context = context;
        recommendation = recommendation;
        answer = e;
        kept = refl;
      })

  advised-Kept :
      (s : AppState F T) (primary : AiAdvisor F T) (now : T) (alert_id : Uuid)
      (first second : Stamp T) (found : Option (Alert F T))
      → alert_in s.manager alert_id ≡ found
      → Kept s (investigated_if s primary now alert_id found first second).0
  advised-Kept s primary now alert_id first second none e = inl refl
  advised-Kept s primary now alert_id first second (some a) e =
      let context = build_context a (history_summary s a) in
      advised_by-Kept s primary now alert_id a context first second
        (investigate primary now context) e refl

  step-Kept : {s s' : AppState F T} → Step s s' → Kept s s'
  unfolding ingest_transaction ingest_and_evaluate record_transaction get_ai_investigation
      submit_decision
  step-Kept (ingested tx) = inl refl
  step-Kept {s} (ingest_evaluated tx draws fresh e) = inl (
      map-some (record_evaluated tx) (λ d. d.0.ai_recommendations ≡ s.ai_recommendations)
        (run_evaluation s tx draws) e (λ d ran. (run_evaluation-IsFrame s tx draws ran).1.1.1.1))
  step-Kept {s} (stored_evaluated tx_hash draws fresh e) = inl (
      evaluate_transaction-done (λ s'. s'.ai_recommendations ≡ s.ai_recommendations) s tx_hash draws
        e refl (λ tx d ran. (run_evaluation-IsFrame s tx draws ran).1.1.1.1))
  step-Kept {s} (advised primary now alert_id first second) =
      advised-Kept s primary now alert_id first second (alert_in s.manager alert_id) refl
  step-Kept {s} (decided header user alert_id req decided_at now first second known) =
      elim (Bool-cases (can_decide user.role)) [
        | inl can ↦ inl (
            rw can (
              settled-Kept s (
                apply_investigator_decision s.manager (decision_of user alert_id req decided_at) now
                  first second)))
        | inr cannot ↦ inl (rw cannot refl)
      ]

  -- A recommendation that is kept is of an alert in the store, and is advice.
  pub record IsAdvised (s : AppState F T) (alert_id : Uuid) (rec : AiRecommendation F T)
      : Type 0 where
    pub alert : Alert F T
    pub stored : alert_in s.manager alert_id ≡ some alert
    pub advisory : IsAdvisory rec

  IsAdvised-step :
      {s s' : AppState F T} (alert_id : Uuid) {rec : AiRecommendation F T}
      → Step s s'
      → IsAdvised s alert_id rec
      → IsAdvised s' alert_id rec
  IsAdvised-step alert_id step before =
      let persisted = step-Persisted alert_id step before.stored in
      record { alert = persisted.now; stored = persisted.found; advisory = before.advisory }

  new_advice :
      IsIeee F
      → {s s' : AppState F T} (alert_id : Uuid) {rec : AiRecommendation F T} → Step s s'
      → (d : Advised s s')
      → (get alert_id s.ai_recommendations ≡ some rec → IsAdvised s alert_id rec)
      → get alert_id s'.ai_recommendations ≡ some rec
      → IsAdvised s' alert_id rec
  new_advice laws {s} {s'} alert_id {rec} step d earlier e =
      elim (Bool-cases (d.alert_id == alert_id)) [
        | inl same ↦
            let id = (nat_eq.test_iff d.alert_id alert_id).0 same in
            let persisted =
              step-Persisted alert_id step (ap (alert_in s.manager) (sym id) ∙ d.found) in
            let kept : d.recommendation ≡ rec =
              Option.some-injective _ _
                (sym (if-true (d.alert_id == alert_id) _ _ same) ∙ sym now ∙ e) in
            record {
              alert = persisted.now;
              stored = persisted.found;
              advisory = subst IsAdvisory kept (
                  subst (Ensures IsAdvisory) d.answer
                    (investigate-IsAdvisory laws d.primary d.now d.context));
            }
        | inr other ↦
            IsAdvised-step alert_id step
              (earlier (sym (if-false (d.alert_id == alert_id) _ _ other) ∙ sym now ∙ e))
      ]
    where
      now : get alert_id s'.ai_recommendations ≡ (
          if d.alert_id == alert_id
          then some d.recommendation
          else get alert_id s.ai_recommendations)
      now =
          ap (get alert_id) d.kept
          ∙ get-insert d.alert_id alert_id d.recommendation s.ai_recommendations

  -- In every state that the handlers reach from an empty start each recommendation that is kept is of
  -- an alert in the store. Whatever the model has answered, it carries the label of advice, a confidence
  -- between 0 and 1, a summary, history, assessment and explanation of at most 4000 characters each, and
  -- at most 20 steps of at most 4000 characters each; and so with its signals, unless it says that no
  -- model was available. It is assumed that the floats are IEEE 754.
  pub Reachable-IsAdvised :
      IsIeee F
      → {s : AppState F T} → Reachable s
      → (alert_id : Uuid) {rec : AiRecommendation F T}
      → get alert_id s.ai_recommendations ≡ some rec
      → IsAdvised s alert_id rec
  Reachable-IsAdvised laws (start rules_engine rules_config auth) alert_id e =
      absurd (ground (arith, get-nil {V = AiRecommendation F T} alert_id))
  Reachable-IsAdvised laws (next reached step) alert_id e = elim (step-Kept step) [
    | inl kept ↦
        IsAdvised-step alert_id step
          (Reachable-IsAdvised laws reached alert_id (sym (ap (get alert_id) kept) ∙ e))
    | inr d ↦ new_advice laws alert_id step d (Reachable-IsAdvised laws reached alert_id) e
  ]
