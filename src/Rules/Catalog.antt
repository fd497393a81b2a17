-- ===== src/Rules/Catalog.antt =====
-- `default_rule_set` of crates/rules_engine/src/rules.rs.
use stellartrace.Prelude.{List, [], ◌∷◌}
use stellartrace.Platform.{Float, Chrono}
use stellartrace.Rules.Engine.{Rule, RulesEngine}
use stellartrace.Rules.Amounts.{
  large_transfer_rule, unusual_asset_movement_rule, configurable_threshold_rule,
}
use stellartrace.Rules.Activity.{
  repeated_transaction_rule, abnormal_frequency_rule, cross_asset_rapid_conversion_rule,
}
use stellartrace.Rules.Accounts.{
  flagged_account_interaction_rule, dormant_account_reactivation_rule, round_trip_wash_trading_rule,
  new_account_high_value_outflow_rule,
}

module _ {F T : Type 0} ⦃f64 : Float F⦄ ⦃chrono : Chrono T⦄ where
  abbrev pub default_rule_set : List (Rule F T)
  default_rule_set =
      large_transfer_rule ∷ repeated_transaction_rule ∷ abnormal_frequency_rule
      ∷ flagged_account_interaction_rule ∷ unusual_asset_movement_rule ∷ configurable_threshold_rule
      ∷ dormant_account_reactivation_rule ∷ round_trip_wash_trading_rule
      ∷ new_account_high_value_outflow_rule ∷ cross_asset_rapid_conversion_rule ∷ []

  -- `RulesEngine::with_default_rules`
  abbrev pub with_default_rules : RulesEngine F T
  with_default_rules = record { rules = default_rule_set }
