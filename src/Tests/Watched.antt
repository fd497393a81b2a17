-- ===== src/Tests/Watched.antt =====
-- The theorem on the parties of confirmed alerts at a concrete input.
use mathlib.Core.Option
use mathlib.Core.List.{Mem, mem-cons_self, filter_map}
use stellartrace.Prelude.{ℕ, ◌≡◌, refl, inr, none, some, [], ◌∷◌, string_eq, nat_eq}
use stellartrace.Prelude.HashMap.{get, insert}
use stellartrace.Platform.Samples.{
  whole, fixed_point, milliseconds, lower_cases, fixed_point-IsIeee,
}
use stellartrace.Common.{
  Alert, TriggeredRule, NormalizedTransaction, confirmed_suspicious, medium, can_decide,
}
use stellartrace.Rules.{
  RulesEngine, default_config, evaluate, large_transfer, large_transfer_rule,
  flagged_account_interaction, flagged_account_interaction_rule,
}
use stellartrace.Scoring.{compute_score, severity_for_score}
use stellartrace.Alerts.{create_alert, get_alert as alert_in, alert_of, apply_investigator_decision}
use stellartrace.Api.{
  AppState, EvaluationResult, initial, ingest_and_evaluate, run_evaluation, record_transaction,
  history_for, submit_decision, from_request_parts, strip_prefix,
}
use stellartrace.Api.Steps.{Step, start, next, ingest_evaluated, decided}
use stellartrace.Api.Evaluated.{IsRaised}
use stellartrace.Api.Watched.{IsFlagging, confirmed-watched}
use stellartrace.Tests.Samples.{parity, uuid_text, payment, draws, stamp, analyst, tokens, confirm}

-- An engine with the rule for flagged accounts.
abbrev guarded : RulesEngine ℕ ℕ
guarded = record { rules = flagged_account_interaction_rule ∷ large_transfer_rule ∷ [] }

abbrev calm : AppState ℕ ℕ
calm = initial guarded default_config tokens

abbrev alerted : AppState ℕ ℕ
alerted =
    (Option.get_or (ingest_and_evaluate calm payment draws)
      (calm, record { triggered_rules = []; anomaly_score = 0; severity = medium; alert = none })).0

abbrev judged : AppState ℕ ℕ
judged = (submit_decision alerted analyst 7 confirm 3000 3000 (stamp 103) (stamp 104)).0

first_step : Step calm alerted
unfolding get ingest_and_evaluate run_evaluation evaluate compute_score large_transfer
    record_transaction history_for severity_for_score create_alert insert whole filter_map
    flagged_account_interaction
first_step = ingest_evaluated payment draws refl refl

second_step : Step alerted judged
unfolding from_request_parts strip_prefix get ingest_and_evaluate run_evaluation compute_score
    evaluate filter_map flagged_account_interaction large_transfer whole record_transaction
second_step =
    decided (some "Bearer secret") analyst 7 confirm 3000 3000 (stamp 103) (stamp 104) refl

abbrev judged_alert : Alert ℕ ℕ
judged_alert = Option.get_or (alert_in judged.manager 7) (alert_of payment [] 0 medium 0 0)

judged-found : alert_in judged.manager 7 ≡ some judged_alert
unfolding get ingest_and_evaluate run_evaluation evaluate compute_score large_transfer
    record_transaction history_for severity_for_score create_alert insert whole filter_map
    flagged_account_interaction submit_decision can_decide apply_investigator_decision
judged-found = refl

judged-confirmed : judged_alert.status ≡ confirmed_suspicious
unfolding get ingest_and_evaluate run_evaluation evaluate compute_score large_transfer
    record_transaction history_for severity_for_score create_alert insert whole filter_map
    flagged_account_interaction submit_decision can_decide apply_investigator_decision
judged-confirmed = refl

judged-destination : judged_alert.destination_account ≡ some "GBOB"
unfolding get ingest_and_evaluate run_evaluation evaluate compute_score large_transfer
    record_transaction history_for severity_for_score create_alert insert whole filter_map
    flagged_account_interaction submit_decision can_decide apply_investigator_decision
judged-destination = refl

-- A small transfer to the destination of the confirmed alert.
abbrev trifle : NormalizedTransaction ℕ
trifle = record payment { tx_hash = "h2"; source_account = "GCAROL"; amount = "1" }

registered : Mem (flagged_account_interaction_rule {F = ℕ} {T = ℕ}) judged.rules_engine.rules
unfolding submit_decision can_decide ingest_and_evaluate run_evaluation evaluate compute_score
    large_transfer flagged_account_interaction apply_investigator_decision get filter_map whole
    record_transaction create_alert insert
registered = mem-cons_self

confirmed-watched_example :
    (done : AppState ℕ ℕ × EvaluationResult ℕ ℕ) × (run_evaluation judged trifle draws ≡ some done)
    × IsRaised judged trifle draws done
    × ((t : TriggeredRule) × Mem t done.1.triggered_rules × IsFlagging t)
confirmed-watched_example =
    confirmed-watched fixed_point-IsIeee
      (next (next (start guarded default_config tokens) first_step) second_step) registered 7
      judged-found judged-confirmed "GBOB" (inr judged-destination) trifle draws (inr refl)
