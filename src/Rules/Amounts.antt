-- ===== src/Rules/Amounts.antt =====
-- crates/rules_engine/src/rules.rs: the rules that compare the amount with a limit or an average.
use mathlib.Core.List.{foldl}
use stellartrace.Prelude.{
  Option, none, some, String, List, [], ◌∷◌, map, filter, length, ltb, ◌==◌, if◌then◌else◌,
}
use stellartrace.Prelude.HashMap.{HashMap}
use stellartrace.Prelude.Text.{format, show}
use stellartrace.Platform.{Float, ◌<F◌, ◌≤F◌}
use stellartrace.Common.{
  NormalizedTransaction, TriggeredRule, amount_f64, display_asset, asset_eq, low, medium, high,
  critical,
}
use stellartrace.Rules.Config.{RulesConfig}
use stellartrace.Rules.Context.{RuleContext}
use stellartrace.Rules.Engine.{Rule, evidence_of}

-- the sum of the amounts over their number
abbrev pub average : {F : Type 0} ⦃f64 : Float F⦄ → List F → F
average ⦃f64⦄ amounts = f64.div (foldl f64.add (f64.of_nat 0) amounts) (f64.of_nat (length amounts))

module _ {F T : Type 0} ⦃f64 : Float F⦄ where
  unfoldable pub large_transfer :
      NormalizedTransaction T → RuleContext T → RulesConfig F → Option TriggeredRule
  large_transfer tx _ctx config =
      let amount = amount_f64 {F = F} tx in
      if config.large_transfer_threshold <F amount
      then some (record {
        rule_id = "large_transfer";
        rule_name = "Large Transfer";
        severity =
            if f64.mul config.large_transfer_threshold (f64.of_nat 10) <F amount
            then critical
            else high;
        reason = format (
            "Transfer of "
            ∷ tx.amount
            ∷ " "
            ∷ display_asset tx.asset
            ∷ " exceeds the large-transfer threshold of "
            ∷ f64.display config.large_transfer_threshold
            ∷ []);
        evidence = evidence_of (
            ("amount", tx.amount)
            ∷ ("threshold", f64.display config.large_transfer_threshold)
            ∷ ("asset", display_asset tx.asset)
            ∷ []);
      })
      else none

  -- the amounts of the history in the transaction's own asset
  unfoldable pub same_asset_history : NormalizedTransaction T → RuleContext T → List F
  same_asset_history tx ctx =
      map (λ h. amount_f64 {F = F} h) (filter (λ h. h.asset == tx.asset) ctx.account_history)

  unfoldable pub unusual_asset_movement :
      NormalizedTransaction T → RuleContext T → RulesConfig F → Option TriggeredRule
  unfolding same_asset_history
  unusual_asset_movement tx ctx config =
      let history : List F = same_asset_history tx ctx in
      let avg = average history in
      let ratio = f64.div (amount_f64 {F = F} tx) avg in
      if ltb (length history) config.unusual_asset_min_history
      then none
      else if avg ≤F f64.of_nat 0
      then none
      else if config.unusual_asset_movement_multiplier ≤F ratio
      then some (record {
        rule_id = "unusual_asset_movement";
        rule_name = "Unusual Asset Movement";
        severity = medium;
        reason = format (
            "Amount "
            ∷ tx.amount
            ∷ " is "
            ∷ f64.fixed 1 ratio
            ∷ "x this account's historical average of "
            ∷ f64.fixed 7 avg
            ∷ " for "
            ∷ display_asset tx.asset
            ∷ " (threshold: "
            ∷ f64.display config.unusual_asset_movement_multiplier
            ∷ "x)"
            ∷ []);
        evidence = evidence_of (
            ("amount", tx.amount)
            ∷ ("historical_average", f64.fixed 7 avg)
            ∷ ("ratio", f64.fixed 2 ratio)
            ∷ ("multiplier_threshold", f64.display config.unusual_asset_movement_multiplier)
            ∷ ("history_size", show (length history))
            ∷ []);
      })
      else none

  -- the trigger for one named threshold
  abbrev pub threshold_trigger : NormalizedTransaction T → String → F → TriggeredRule
  threshold_trigger tx name threshold = record {
    rule_id = "configurable_threshold";
    rule_name = format ("Configurable Threshold: " ∷ name ∷ []);
    severity = low;
    reason = format (
        "Amount "
        ∷ tx.amount
        ∷ " exceeds configured threshold '"
        ∷ name
        ∷ "' ("
        ∷ f64.display threshold
        ∷ ")"
        ∷ []);
    evidence = evidence_of (
        ("threshold_name", name)
        ∷ ("threshold_value", f64.display threshold)
        ∷ ("amount", tx.amount)
        ∷ []);
  }

  -- the `for` loop over the map, which returns at the first threshold that the amount exceeds
  unfoldable pub first_exceeded : NormalizedTransaction T → HashMap String F → Option TriggeredRule
  first_exceeded tx [] = none
  first_exceeded tx ((name, threshold) ∷ rest) =
      let later = first_exceeded tx rest in
      if threshold <F amount_f64 {F = F} tx
      then some (threshold_trigger tx name threshold)
      else later

  unfoldable pub configurable_threshold :
      NormalizedTransaction T → RuleContext T → RulesConfig F → Option TriggeredRule
  unfolding first_exceeded
  configurable_threshold tx _ctx config = first_exceeded tx config.custom_thresholds

  abbrev pub large_transfer_rule : Rule F T
  large_transfer_rule = record { id = "large_transfer"; evaluate = large_transfer }

  abbrev pub unusual_asset_movement_rule : Rule F T
  unusual_asset_movement_rule = record {
    id = "unusual_asset_movement";
    evaluate = unusual_asset_movement;
  }

  abbrev pub configurable_threshold_rule : Rule F T
  configurable_threshold_rule = record {
    id = "configurable_threshold";
    evaluate = configurable_threshold;
  }
