-- ===== src/Rules/Activity.antt =====
-- crates/rules_engine/src/rules.rs: the rules that count what the account did within a window.
use mathlib.Core.List.{foldr}
use stellartrace.Prelude.{
  ◌+◌, Option, none, some, List, [], ◌∷◌, map, length, count, leb, option_beq, string_eq,
  insert_item, if◌then◌else◌,
}
use stellartrace.Prelude.Text.{format, show, show_ℤ}
use stellartrace.Platform.{Chrono}
use stellartrace.Common.{Asset, NormalizedTransaction, TriggeredRule, asset_eq, medium}
use stellartrace.Rules.Config.{RulesConfig}
use stellartrace.Rules.Context.{RuleContext, within_window}
use stellartrace.Rules.Engine.{Rule, evidence_of, destination_entry}

-- the `HashSet` of the assets in the window and the transaction's own
unfoldable pub distinct_assets :
    {T : Type 0} → NormalizedTransaction T → List (NormalizedTransaction T) → List Asset
distinct_assets tx window = insert_item tx.asset (foldr insert_item [] (map (λ h. h.asset) window))

module _ {F T : Type 0} ⦃chrono : Chrono T⦄ where
  unfoldable pub repeated_transaction :
      NormalizedTransaction T → RuleContext T → RulesConfig F → Option TriggeredRule
  unfolding within_window
  repeated_transaction tx ctx config =
      let window = within_window ctx tx.timestamp config.repeated_tx_window_secs in
      let matching =
        count (λ h. option_beq h.destination_account tx.destination_account) window + 1 in
      if leb config.repeated_tx_count_threshold matching
      then some (record {
        rule_id = "repeated_transaction";
        rule_name = "Repeated Transaction";
        severity = medium;
        reason = format (
            show matching
            ∷ " transactions to the same destination within "
            ∷ show_ℤ config.repeated_tx_window_secs
            ∷ " seconds (threshold: "
            ∷ show config.repeated_tx_count_threshold
            ∷ ")"
            ∷ []);
        evidence = evidence_of (
            ("count", show matching)
            ∷ ("threshold", show config.repeated_tx_count_threshold)
            ∷ ("window_secs", show_ℤ config.repeated_tx_window_secs)
            ∷ destination_entry tx.destination_account);
      })
      else none

  unfoldable pub abnormal_frequency :
      NormalizedTransaction T → RuleContext T → RulesConfig F → Option TriggeredRule
  unfolding within_window
  abnormal_frequency tx ctx config =
      let window = within_window ctx tx.timestamp config.frequency_window_secs in
      let total = length window + 1 in
      if leb config.frequency_count_threshold total
      then some (record {
        rule_id = "abnormal_frequency";
        rule_name = "Abnormal Transaction Frequency";
        severity = medium;
        reason = format (
            "Account "
            ∷ tx.source_account
            ∷ " made "
            ∷ show total
            ∷ " transactions within "
            ∷ show_ℤ config.frequency_window_secs
            ∷ " seconds (threshold: "
            ∷ show config.frequency_count_threshold
            ∷ ")"
            ∷ []);
        evidence = evidence_of (
            ("count", show total)
            ∷ ("threshold", show config.frequency_count_threshold)
            ∷ ("window_secs", show_ℤ config.frequency_window_secs)
            ∷ []);
      })
      else none

  unfoldable pub cross_asset_rapid_conversion :
      NormalizedTransaction T → RuleContext T → RulesConfig F → Option TriggeredRule
  unfolding within_window distinct_assets
  cross_asset_rapid_conversion tx ctx config =
      let window = within_window ctx tx.timestamp config.cross_asset_conversion_window_secs in
      let total = length (distinct_assets tx window) in
      if leb config.cross_asset_conversion_count_threshold total
      then some (record {
        rule_id = "cross_asset_rapid_conversion";
        rule_name = "Cross-Asset Rapid Conversion";
        severity = medium;
        reason = format (
            "Account touched "
            ∷ show total
            ∷ " distinct assets within "
            ∷ show_ℤ config.cross_asset_conversion_window_secs
            ∷ " seconds (threshold: "
            ∷ show config.cross_asset_conversion_count_threshold
            ∷ "), consistent with layering"
            ∷ []);
        evidence = evidence_of (
            ("distinct_asset_count", show total)
            ∷ ("count_threshold", show config.cross_asset_conversion_count_threshold)
            ∷ ("window_secs", show_ℤ config.cross_asset_conversion_window_secs)
            ∷ []);
      })
      else none

  abbrev pub repeated_transaction_rule : Rule F T
  repeated_transaction_rule = record {
    id = "repeated_transaction";
    evaluate = repeated_transaction;
  }

  abbrev pub abnormal_frequency_rule : Rule F T
  abnormal_frequency_rule = record { id = "abnormal_frequency"; evaluate = abnormal_frequency }

  abbrev pub cross_asset_rapid_conversion_rule : Rule F T
  cross_asset_rapid_conversion_rule = record {
    id = "cross_asset_rapid_conversion";
    evaluate = cross_asset_rapid_conversion;
  }
