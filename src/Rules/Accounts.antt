-- ===== src/Rules/Accounts.antt =====
-- crates/rules_engine/src/rules.rs: the rules about the two accounts and their earlier transfers.
use stellartrace.Prelude.{
  ℕ, Bool, false, ◌&&◌, ◌||◌, Option, none, some, String, List, [], ◌∷◌, filter, find, count, leb,
  contains, string_eq, ◌==◌, option_beq, if◌then◌else◌,
}
use stellartrace.Prelude.Int.{leb_ℤ}
use stellartrace.Prelude.Text.{format, show, show_ℤ, show_bool}
use stellartrace.Platform.{Float, Chrono, ◌<F◌}
use stellartrace.Common.{
  NormalizedTransaction, TriggeredRule, amount_f64, display_asset, medium, high,
}
use stellartrace.Rules.Config.{RulesConfig}
use stellartrace.Rules.Context.{RuleContext, within_window}
use stellartrace.Rules.Engine.{Rule, evidence_of, destination_entry}

-- `.map(|d| flagged.contains(d)).unwrap_or(false)`
abbrev pub destination_flagged : Option String → List String → Bool
destination_flagged none flagged = false
destination_flagged (some d) flagged = contains flagged d

module _ {F T : Type 0} where
  unfoldable pub flagged_account_interaction :
      NormalizedTransaction T → RuleContext T → RulesConfig F → Option TriggeredRule
  flagged_account_interaction tx ctx _config =
      let source_flagged = contains ctx.flagged_accounts tx.source_account in
      let dest_flagged = destination_flagged tx.destination_account ctx.flagged_accounts in
      if source_flagged || dest_flagged
      then some (record {
        rule_id = "flagged_account_interaction";
        rule_name = "Flagged Account Interaction";
        severity = high;
        reason = format (
            "Transaction involves a previously flagged account ("
            ∷ (if source_flagged then "source" else "destination")
            ∷ ")"
            ∷ []);
        evidence = evidence_of (
            ("source_flagged", show_bool source_flagged)
            ∷ ("destination_flagged", show_bool dest_flagged)
            ∷ ("source_account", tx.source_account)
            ∷ destination_entry tx.destination_account);
      })
      else none

  abbrev pub flagged_account_interaction_rule : Rule F T
  flagged_account_interaction_rule = record {
    id = "flagged_account_interaction";
    evaluate = flagged_account_interaction;
  }

module _ {T : Type 0} ⦃chrono : Chrono T⦄ where
  -- an earlier transaction that the same account sent
  unfoldable pub sent_before : NormalizedTransaction T → NormalizedTransaction T → Bool
  sent_before tx h = h.source_account == tx.source_account && chrono.before h.timestamp tx.timestamp

  -- `max_by_key(|h| h.timestamp)`, which returns the last of several greatest items
  unfoldable pub latest_from :
      NormalizedTransaction T → List (NormalizedTransaction T) → NormalizedTransaction T
  latest_from best [] = best
  latest_from best (h ∷ rest) =
      latest_from (if chrono.before h.timestamp best.timestamp then best else h) rest

  abbrev pub latest : List (NormalizedTransaction T) → Option (NormalizedTransaction T)
  latest [] = none
  latest (h ∷ rest) = some (latest_from h rest)

  -- the return leg that `find` looks for
  unfoldable pub is_return_leg : NormalizedTransaction T → String → NormalizedTransaction T → Bool
  is_return_leg tx destination h =
      h.source_account == destination
      && (option_beq h.destination_account (some tx.source_account)
          && chrono.before h.timestamp tx.timestamp)

module _ {F T : Type 0} ⦃f64 : Float F⦄ ⦃chrono : Chrono T⦄ where
  -- the trigger after a gap of `gap_secs` since `last_prior`
  abbrev pub dormant_trigger :
      NormalizedTransaction T → NormalizedTransaction T → RulesConfig F → TriggeredRule
  dormant_trigger tx last_prior config =
      let gap = show_ℤ (chrono.num_seconds tx.timestamp last_prior.timestamp) in
      record {
        rule_id = "dormant_account_reactivation";
        rule_name = "Dormant Account Reactivation";
        severity = high;
        reason = format (
            "Account was inactive for "
            ∷ gap
            ∷ " seconds (threshold: "
            ∷ show_ℤ config.dormant_reactivation_gap_secs
            ∷ ") before this "
            ∷ tx.amount
            ∷ " "
            ∷ display_asset tx.asset
            ∷ " transaction"
            ∷ []);
        evidence = evidence_of (
            ("gap_secs", gap)
            ∷ ("gap_threshold_secs", show_ℤ config.dormant_reactivation_gap_secs)
            ∷ ("amount", tx.amount)
            ∷ ("min_amount_threshold", f64.display config.dormant_reactivation_min_amount)
            ∷ ("last_prior_tx_hash", last_prior.tx_hash)
            ∷ []);
      }

  unfoldable pub dormant_account_reactivation :
      NormalizedTransaction T → RuleContext T → RulesConfig F → Option TriggeredRule
  unfolding latest_from sent_before
  dormant_account_reactivation tx ctx config =
      if amount_f64 {F = F} tx <F config.dormant_reactivation_min_amount
      then none
      else elim (latest (filter (sent_before tx) ctx.account_history)) [
        | none ↦ none
        | some last_prior ↦
            if leb_ℤ config.dormant_reactivation_gap_secs
              (chrono.num_seconds tx.timestamp last_prior.timestamp)
            then some (dormant_trigger tx last_prior config)
            else none
      ]

  abbrev pub round_trip_trigger :
      NormalizedTransaction T → String → NormalizedTransaction T → RulesConfig F → TriggeredRule
  round_trip_trigger tx destination prior config = record {
    rule_id = "round_trip_wash_trading";
    rule_name = "Round-Trip Wash Trading";
    severity = high;
    reason = format (
        "Funds round-tripped between "
        ∷ tx.source_account
        ∷ " and "
        ∷ destination
        ∷ " within "
        ∷ show_ℤ config.wash_trading_window_secs
        ∷ " seconds"
        ∷ []);
    evidence = evidence_of (
        ("window_secs", show_ℤ config.wash_trading_window_secs)
        ∷ ("return_leg_tx_hash", prior.tx_hash)
        ∷ ("return_leg_amount", prior.amount)
        ∷ ("outbound_amount", tx.amount)
        ∷ []);
  }

  unfoldable pub round_trip_wash_trading :
      NormalizedTransaction T → RuleContext T → RulesConfig F → Option TriggeredRule
  unfolding within_window is_return_leg
  round_trip_wash_trading tx ctx config = elim tx.destination_account [
    | none ↦ none
    | some destination ↦
        elim (find (is_return_leg tx destination)
          (within_window ctx tx.timestamp config.wash_trading_window_secs)) [
            | none ↦ none
            | some prior ↦ some (round_trip_trigger tx destination prior config)
          ]
  ]

  abbrev pub new_account_trigger : NormalizedTransaction T → ℕ → RulesConfig F → TriggeredRule
  new_account_trigger tx outgoing_count config = record {
    rule_id = "new_account_high_value_outflow";
    rule_name = "New Account High-Value Outflow";
    severity = medium;
    reason = format (
        "Account has only "
        ∷ show outgoing_count
        ∷ " prior outgoing transaction(s) (threshold: "
        ∷ show config.new_account_history_threshold
        ∷ ") but is sending "
        ∷ tx.amount
        ∷ " "
        ∷ display_asset tx.asset
        ∷ []);
    evidence = evidence_of (
        ("prior_outgoing_count", show outgoing_count)
        ∷ ("history_threshold", show config.new_account_history_threshold)
        ∷ ("amount", tx.amount)
        ∷ ("amount_threshold", f64.display config.new_account_outflow_threshold)
        ∷ []);
  }

  unfoldable pub new_account_high_value_outflow :
      NormalizedTransaction T → RuleContext T → RulesConfig F → Option TriggeredRule
  unfolding sent_before
  new_account_high_value_outflow tx ctx config = elim tx.destination_account [
    | none ↦ none
    | some _ ↦
        let outgoing_count = count (sent_before tx) ctx.account_history in
        if amount_f64 {F = F} tx <F config.new_account_outflow_threshold
        then none
        else if leb outgoing_count config.new_account_history_threshold
        then some (new_account_trigger tx outgoing_count config)
        else none
  ]

  abbrev pub dormant_account_reactivation_rule : Rule F T
  dormant_account_reactivation_rule = record {
    id = "dormant_account_reactivation";
    evaluate = dormant_account_reactivation;
  }

  abbrev pub round_trip_wash_trading_rule : Rule F T
  round_trip_wash_trading_rule = record {
    id = "round_trip_wash_trading";
    evaluate = round_trip_wash_trading;
  }

  abbrev pub new_account_high_value_outflow_rule : Rule F T
  new_account_high_value_outflow_rule = record {
    id = "new_account_high_value_outflow";
    evaluate = new_account_high_value_outflow;
  }
