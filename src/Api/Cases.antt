-- ===== src/Api/Cases.antt =====
-- A step of the handlers of crates/api/src/handlers.rs is a decision, or it leaves decisions and flags
-- alone.
use stellartrace.Prelude.{◌∙◌, ap, ◌≡◌, refl, nat_eq, string_eq, ◌⊎◌, Bool-cases, inl, inr}
use stellartrace.Platform.{Unicode, Float}
use stellartrace.Common.{can_decide}
use stellartrace.Audit.{Hashing}
use stellartrace.Alerts.{get_alert as alert_in, apply_investigator_decision}
use stellartrace.Api.Error.{UuidText}
use stellartrace.Api.State.{AppState, record_transaction}
use stellartrace.Api.Evaluation.{
  ingest_transaction, ingest_and_evaluate, run_evaluation, record_evaluated,
}
use stellartrace.Api.Review.{get_ai_investigation, submit_decision, decision_of}
use stellartrace.Api.Steps.{
  Step, ingested, ingest_evaluated, stored_evaluated, advised, decided, Effect, same, Decided,
}
use stellartrace.Api.Effects.{
  map-some, run_evaluation-Effect, run_evaluation-IsFrame, evaluate_transaction-done,
  advised-Effect, advised-flagged, settled-manager,
}

module _ {F T : Type 0} ⦃f64 : Float F⦄ ⦃hashing : Hashing F T⦄ ⦃text : UuidText⦄ where
  -- A step either leaves the decisions and the flags alone or is such a decision.
  pub step-cases :
      ⦃unicode : Unicode⦄ {s s' : AppState F T}
      → Step s s'
      → (Effect s.manager s'.manager × (s'.flagged_accounts ≡ s.flagged_accounts)) ⊎ Decided s s'
  unfolding ingest_transaction ingest_and_evaluate record_transaction get_ai_investigation
      submit_decision
  step-cases (ingested tx) = inl (same, refl)
  step-cases {s} (ingest_evaluated tx draws fresh e) = inl (
      map-some (record_evaluated tx)
        (λ d. Effect s.manager d.0.manager × (d.0.flagged_accounts ≡ s.flagged_accounts))
        (run_evaluation s tx draws) e
        (λ d ran. (
          run_evaluation-Effect s tx draws fresh ran,
          (run_evaluation-IsFrame s tx draws ran).1.1.0,
        )))
  step-cases {s} (stored_evaluated tx_hash draws fresh e) = inl (
      evaluate_transaction-done
        (λ s'. Effect s.manager s'.manager × (s'.flagged_accounts ≡ s.flagged_accounts)) s tx_hash
        draws e (same, refl)
        (λ tx d ran. (
          run_evaluation-Effect s tx draws fresh ran,
          (run_evaluation-IsFrame s tx draws ran).1.1.0,
        )))
  step-cases {s} (advised primary now alert_id first second) = inl (
    advised-Effect s primary now alert_id first second (alert_in s.manager alert_id) refl,
    advised-flagged s primary now alert_id first second (alert_in s.manager alert_id),
  )
  step-cases {s} (decided header user alert_id req decided_at now first second known) =
      elim (Bool-cases (can_decide user.role))
        as (λ x.
          (Effect s.manager
              (submit_decision s user alert_id req decided_at now first second).0.manager
            × ((submit_decision s user alert_id req decided_at now first second).0.flagged_accounts
                ≡ s.flagged_accounts))
          ⊎ Decided s (submit_decision s user alert_id req decided_at now first second).0) [
            | inl can ↦ inr (record {
              header = header;
              user = user;
              alert_id = alert_id;
              req = req;
              decided_at = decided_at;
              now = now;
              first = first;
              second = second;
              known = known;
              allowed = can;
              result = rw can refl;
            })
            | inr cannot ↦ rw cannot (inl (same, refl))
          ]

  pub Decided-manager :
      {s s' : AppState F T} (d : Decided s s')
      → s'.manager
        ≡ (apply_investigator_decision s.manager
            (decision_of d.user d.alert_id d.req d.decided_at)
            d.now
            d.first
            d.second).0
  Decided-manager {s} d =
      ap (λ x. x.manager) d.result
      ∙ settled-manager s (
          apply_investigator_decision s.manager (decision_of d.user d.alert_id d.req d.decided_at)
            d.now d.first d.second)
