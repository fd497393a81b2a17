-- ===== src/Advisor/Context.antt =====
-- crates/ai_advisor/src/context.rs: the part of an alert that the advisor is told.
use stellartrace.Prelude.{Option, String, List, map}
use stellartrace.Platform.{Uuid}
use stellartrace.Common.{Alert, display_asset, debug_severity}

pub record AiContext (F T : Type 0) : Type 0 where
  pub alert_id : Uuid
  pub tx_hash : String
  pub source_account : String
  pub destination_account : Option String
  pub asset_description : String
  pub amount : String
  pub timestamp : T
  pub triggered_rule_reasons : List String
  pub anomaly_score : F
  pub severity : String
  pub recent_related_history_summary : String

unfoldable pub build_context : {F T : Type 0} → Alert F T → String → AiContext F T
build_context alert recent_related_history_summary = record {
  alert_id = alert.alert_id;
  tx_hash = alert.tx_hash;
  source_account = alert.source_account;
  destination_account = alert.destination_account;
  asset_description = display_asset alert.asset;
  amount = alert.amount;
  timestamp = alert.timestamp;
  triggered_rule_reasons = map (λ r. r.reason) alert.triggered_rules;
  anomaly_score = alert.anomaly_score;
  severity = debug_severity alert.severity;
  recent_related_history_summary = recent_related_history_summary;
}
