-- ===== src/Tests/Api.antt =====
-- The theorems on the application at concrete inputs.
use mathlib.Core.Option
use mathlib.Core.List.{filter_map}
use stellartrace.Prelude.{
  string_eq, ◌==◌, not, String, filter, recent, ℕ, ◌≡◌, refl, none, some, [], ◌∷◌,
}
use stellartrace.Prelude.HashMap.{get, insert}
use stellartrace.Common.{Alert, medium}
use stellartrace.Rules.{default_config, evaluate, large_transfer}
use stellartrace.Scoring.{compute_score, severity_for_score}
use stellartrace.Platform.Samples.{milliseconds-IsTimeline, whole}
use stellartrace.Platform.Samples.{lower_cases, fixed_point, milliseconds, fixed_point-IsIeee}
use stellartrace.Alerts.{create_alert, get_alert as alert_in, alert_of}
use stellartrace.Api.{
  context_of, list_alerts, max_history_per_account, AppState, record_transaction, history_for,
  ingest_and_evaluate, run_evaluation, EvaluationResult, from_request_parts, strip_prefix,
  submit_decision,
}
use stellartrace.Api.Tokens.{authenticate-Grants, Grants}
use stellartrace.Prelude.Split.{split, splitn, trim_start, trim_end}
use stellartrace.Api.{from_env, authenticate, add_entries}
use stellartrace.Api.Steps.{Reachable, start, next, ingest_evaluated, decided, Step}
use stellartrace.Api.Invariants.{step-Extends, Extends}
use stellartrace.Api.Flags.{Reachable-IsCoveredBy, IsCoveredBy}
use stellartrace.Api.Evaluated.{run_evaluation-IsEvaluation, IsEvaluation}
use stellartrace.Api.History.{history_for-recent, record_all, involves}
use stellartrace.Api.Listing.{IsListing, list_alerts-IsListing}
use stellartrace.Tests.Samples.{
  parity, uuid_text, payment, engine, empty, draws, confirm, analyst, stamp, tokens,
}

abbrev pub ingested : AppState ℕ ℕ × EvaluationResult ℕ ℕ
ingested =
    Option.get_or (ingest_and_evaluate empty payment draws)
      (empty, record { triggered_rules = []; anomaly_score = 0; severity = medium; alert = none })

pub ingest_step : Step empty ingested.0
unfolding get ingest_and_evaluate run_evaluation evaluate compute_score large_transfer
    record_transaction history_for severity_for_score create_alert insert whole filter_map
ingest_step = ingest_evaluated payment draws refl refl

abbrev pub the_alert : Alert ℕ ℕ
the_alert = Option.get_or (alert_in ingested.0.manager 7) (alert_of payment [] 0 medium 0 0)

abbrev pub final : AppState ℕ ℕ
final = (submit_decision ingested.0 analyst 7 confirm 3000 3000 (stamp 103) (stamp 104)).0

pub decide_step : Step ingested.0 final
unfolding from_request_parts strip_prefix get ingest_and_evaluate run_evaluation evaluate
    compute_score large_transfer record_transaction history_for severity_for_score create_alert
    insert whole filter_map
decide_step =
    decided (some "Bearer secret") analyst 7 confirm 3000 3000 (stamp 103) (stamp 104) refl

pub reached : Reachable final
reached = next (next (start engine default_config tokens) ingest_step) decide_step

pub stored : alert_in ingested.0.manager 7 ≡ some the_alert
unfolding get ingest_and_evaluate run_evaluation evaluate compute_score large_transfer
    record_transaction history_for severity_for_score create_alert insert whole filter_map
stored = refl

Reachable-IsCoveredBy_example : IsCoveredBy final.manager final.flagged_accounts
Reachable-IsCoveredBy_example = Reachable-IsCoveredBy reached

step-Extends_example : Extends final.manager.audit ingested.0.manager.audit
step-Extends_example = step-Extends decide_step

run_evaluation-IsEvaluation_example :
    (done : AppState ℕ ℕ × EvaluationResult ℕ ℕ) × (run_evaluation empty payment draws ≡ some done)
    × IsEvaluation empty payment draws done
run_evaluation-IsEvaluation_example =
    run_evaluation-IsEvaluation empty payment draws fixed_point-IsIeee

history_for-recent_example :
    (history_for (record_all empty (payment ∷ payment ∷ [])) "GBOB"
      ≡ recent max_history_per_account (filter (involves "GBOB") (payment ∷ payment ∷ [])))
    × ((context_of (record_all empty (payment ∷ payment ∷ [])) payment).account_history
        ≡ filter
            (λ h. not (h.tx_hash == payment.tx_hash))
            (recent max_history_per_account
              (filter (involves payment.source_account) (payment ∷ payment ∷ []))))
history_for-recent_example = history_for-recent empty (payment ∷ payment ∷ []) "GBOB" payment refl

abbrev raw : String
raw = "bad,secret:investigator:ann, ,x:king:bob"

raw-known : authenticate (from_env (some raw)) "secret" ≡ some analyst
unfolding from_env split splitn trim_start trim_end get insert add_entries
raw-known = refl

authenticate-Grants_example : Grants (split 44 raw) "secret" analyst
authenticate-Grants_example = authenticate-Grants raw "secret" analyst raw-known

list_alerts-IsListing_example :
    IsListing ingested.0.manager (some "open") (list_alerts ingested.0 (some "open"))
list_alerts-IsListing_example =
    list_alerts-IsListing milliseconds-IsTimeline ingested.0 (some "open")
