-- ===== src/Api/Evaluation.antt =====
-- The handlers of crates/api/src/handlers.rs on transactions. A handler takes the state and what the request holds, and returns the new
-- state and the response. What it draws (identifiers, instants) is an
-- argument. `none` stands for a panic in `compute_score`, which leaves the state as it is.
use stellartrace.Prelude.{
  not, Option, none, some, String, List, [], ◌∷◌, string_eq, nat_eq, ◌==◌, filter, is_empty,
  if◌then◌else◌,
}
use mathlib.Core.Option
use stellartrace.Prelude.HashMap.{get}
use stellartrace.Prelude.Outcome.{Result, ok, fail}
use stellartrace.Prelude.Text.{format}
use stellartrace.Platform.{Float, Uuid}
use stellartrace.Common.{NormalizedTransaction, TriggeredRule, Severity, Alert, status_eq}
use stellartrace.Rules.{RuleContext, evaluate}
use stellartrace.Scoring.{compute_score, default_weights, severity_for_score}
use stellartrace.Audit.{Hashing}
use stellartrace.Alerts.{Stamp, create_alert}
use stellartrace.Api.Metrics.{record_transaction_ingested, record_alert_created}
use stellartrace.Api.Error.{ApiError, not_found}
use stellartrace.Api.State.{
  AppState, with_manager, with_metrics, record_transaction, history_for, flagged_accounts_snapshot,
}

pub record EvaluationResult (F T : Type 0) : Type 0 where
  pub triggered_rules : List TriggeredRule
  pub anomaly_score : F
  pub severity : Severity
  pub alert : Option (Alert F T)

-- What `create_alert` draws.
pub record Draws (T : Type 0) : Type 0 where
  pub now : T
  pub alert_id : Uuid
  pub first : Stamp T
  pub second : Stamp T

abbrev pub transaction_missing : String → ApiError
transaction_missing tx_hash = not_found (format ("transaction not found: " ∷ tx_hash ∷ []))

abbrev pub found_or : {A : Type 0} → Option A → ApiError → Result A ApiError
found_or none e = fail e
found_or (some a) e = ok a

module _ {F T : Type 0} where
  unfoldable pub ingest_transaction :
      AppState F T → NormalizedTransaction T → AppState F T × NormalizedTransaction T
  ingest_transaction s tx =
      let recorded = record_transaction s tx in
      (with_metrics recorded (record_transaction_ingested recorded.metrics), tx)

  unfoldable pub get_transaction : AppState F T → String → Result (NormalizedTransaction T) ApiError
  get_transaction s tx_hash = found_or (get tx_hash s.transactions) (transaction_missing tx_hash)

  -- the rules' context: the source account's history without the transaction itself, and the flags
  abbrev pub context_of : AppState F T → NormalizedTransaction T → RuleContext T
  context_of s tx = record {
    account_history = filter (λ h. not (h.tx_hash == tx.tx_hash)) (history_for s tx.source_account);
    flagged_accounts = flagged_accounts_snapshot s;
  }

module _ {F T : Type 0} ⦃f64 : Float F⦄ ⦃hashing : Hashing F T⦄ where
  -- the second half of `run_evaluation`, with the triggers and their score
  abbrev pub respond :
      AppState F T
      → NormalizedTransaction T
      → Draws T
      → List TriggeredRule
      → F
      → AppState F T × EvaluationResult F T
  respond s tx draws triggered_rules anomaly_score =
      let severity = severity_for_score anomaly_score in
      if not (is_empty triggered_rules)
      then (let counted = with_metrics s (record_alert_created s.metrics) in
          let created =
            create_alert counted.manager tx triggered_rules anomaly_score severity draws.now
              draws.alert_id draws.first draws.second in
          (
            with_manager counted created.0,
            record {
              triggered_rules = triggered_rules;
              anomaly_score = anomaly_score;
              severity = severity;
              alert = some created.1;
            },
          ))
      else (
        s,
        record {
          triggered_rules = triggered_rules;
          anomaly_score = anomaly_score;
          severity = severity;
          alert = none;
        },
      )

  abbrev pub respond_if :
      AppState F T
      → NormalizedTransaction T
      → Draws T
      → List TriggeredRule
      → Option F
      → Option (AppState F T × EvaluationResult F T)
  respond_if s tx draws triggered_rules none = none
  respond_if s tx draws triggered_rules (some score) =
      some (respond s tx draws triggered_rules score)

  unfoldable pub run_evaluation :
      AppState F T
      → NormalizedTransaction T
      → Draws T
      → Option (AppState F T × EvaluationResult F T)
  run_evaluation s tx draws =
      let triggered_rules = evaluate s.rules_engine tx (context_of s tx) s.rules_config in
      respond_if s tx draws triggered_rules (compute_score triggered_rules default_weights)

  abbrev pub evaluated :
      AppState F T
      → String
      → Draws T
      → Option (NormalizedTransaction T)
      → Option (AppState F T × Result (EvaluationResult F T) ApiError)
  evaluated s tx_hash draws none = some (s, fail (transaction_missing tx_hash))
  evaluated s tx_hash draws (some tx) =
      Option.map (λ done. (done.0, ok done.1)) (run_evaluation s tx draws)

  unfoldable pub evaluate_transaction :
      AppState F T
      → String
      → Draws T
      → Option (AppState F T × Result (EvaluationResult F T) ApiError)
  evaluate_transaction s tx_hash draws = evaluated s tx_hash draws (get tx_hash s.transactions)

  -- the rest of `ingest_and_evaluate`: the transaction is recorded after its evaluation
  abbrev pub record_evaluated :
      NormalizedTransaction T
      → AppState F T × EvaluationResult F T
      → AppState F T × EvaluationResult F T
  record_evaluated tx (s, result) =
      let recorded = record_transaction s tx in
      (with_metrics recorded (record_transaction_ingested recorded.metrics), result)

  unfoldable pub ingest_and_evaluate :
      AppState F T
      → NormalizedTransaction T
      → Draws T
      → Option (AppState F T × EvaluationResult F T)
  ingest_and_evaluate s tx draws = Option.map (record_evaluated tx) (run_evaluation s tx draws)
