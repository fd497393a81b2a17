-- ===== src/Api/Metrics.antt =====
-- crates/api/src/metrics.rs: five `AtomicU64` counters, on which `fetch_add` wraps around.
use stellartrace.Prelude.{ℕ, ◌+◌, ◌%◌, ◌^◌, Bool, not, String, List, [], ◌∷◌, ◌++◌, if◌then◌else◌}
use stellartrace.Prelude.Text.{format, show}

pub record Metrics : Type 0 where
  pub transactions_ingested_total : ℕ
  pub alerts_created_total : ℕ
  pub ai_recommendations_total : ℕ
  pub ai_fallback_total : ℕ
  pub investigator_decisions_total : ℕ

-- `Metrics::default`
abbrev pub default_metrics : Metrics
default_metrics = record {
  transactions_ingested_total = 0;
  alerts_created_total = 0;
  ai_recommendations_total = 0;
  ai_fallback_total = 0;
  investigator_decisions_total = 0;
}

-- `fetch_add(1, ..)`
unfoldable pub fetch_add_one : ℕ → ℕ
fetch_add_one n = (n + 1) % 2 ^ 64

abbrev pub record_transaction_ingested : Metrics → Metrics
record_transaction_ingested m = record {
  transactions_ingested_total = fetch_add_one m.transactions_ingested_total;
  alerts_created_total = m.alerts_created_total;
  ai_recommendations_total = m.ai_recommendations_total;
  ai_fallback_total = m.ai_fallback_total;
  investigator_decisions_total = m.investigator_decisions_total;
}

abbrev pub record_alert_created : Metrics → Metrics
record_alert_created m = record {
  transactions_ingested_total = m.transactions_ingested_total;
  alerts_created_total = fetch_add_one m.alerts_created_total;
  ai_recommendations_total = m.ai_recommendations_total;
  ai_fallback_total = m.ai_fallback_total;
  investigator_decisions_total = m.investigator_decisions_total;
}

abbrev pub record_ai_recommendation : Metrics → Bool → Metrics
record_ai_recommendation m model_available = record {
  transactions_ingested_total = m.transactions_ingested_total;
  alerts_created_total = m.alerts_created_total;
  ai_recommendations_total = fetch_add_one m.ai_recommendations_total;
  ai_fallback_total =
      if not model_available then fetch_add_one m.ai_fallback_total else m.ai_fallback_total;
  investigator_decisions_total = m.investigator_decisions_total;
}

abbrev pub record_investigator_decision : Metrics → Metrics
record_investigator_decision m = record {
  transactions_ingested_total = m.transactions_ingested_total;
  alerts_created_total = m.alerts_created_total;
  ai_recommendations_total = m.ai_recommendations_total;
  ai_fallback_total = m.ai_fallback_total;
  investigator_decisions_total = fetch_add_one m.investigator_decisions_total;
}

-- what `push_counter` appends
unfoldable pub push_counter : String → String → ℕ → List String
push_counter name help value =
    ("# HELP " ∷ name ∷ " " ∷ help ∷ "\n" ∷ [])
    ++ (("# TYPE " ∷ name ∷ " counter\n" ∷ []) ++ (name ∷ " " ∷ show value ∷ "\n" ∷ []))

unfoldable pub render_prometheus_text : Metrics → String
unfolding format push_counter
render_prometheus_text m = format (
    push_counter "stellartrace_transactions_ingested_total"
      "Transactions received via the ingest/evaluate endpoints" m.transactions_ingested_total
    ++ (push_counter "stellartrace_alerts_created_total" "Alerts created by the rules engine"
          m.alerts_created_total
        ++ (push_counter "stellartrace_ai_recommendations_total"
              "AI advisory recommendations generated" m.ai_recommendations_total
            ++ (push_counter "stellartrace_ai_fallback_total"
                  "AI advisory recommendations that were fallback responses (AI unavailable)"
                  m.ai_fallback_total
                ++ push_counter "stellartrace_investigator_decisions_total"
                    "Final human decisions submitted" m.investigator_decisions_total))))
