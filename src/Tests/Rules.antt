-- ===== src/Tests/Rules.antt =====
-- The theorems on the rules at concrete inputs.
use mathlib.Core.List.{mem-cons_self}
use mathlib.Core.List.Perm
use mathlib.Core.Option
use stellartrace.Prelude.{
  sym, ◌∙◌, ℕ, ◌≡◌, ◌≢◌, ◌↔◌, refl, true, some, none, String, [], ◌∷◌, arith, string_eq,
}
use stellartrace.Platform.Samples.{
  lower_cases, fixed_point, milliseconds, milliseconds-IsTimeline, whole,
}
use stellartrace.Common.{NormalizedTransaction, TriggeredRule}
use stellartrace.Rules.{
  by_rule_id, RulesEngine, RulesConfig, RuleContext, evaluate, default_config, large_transfer_rule,
  repeated_transaction_rule, in_window, abnormal_frequency, repeated_transaction,
  new_account_high_value_outflow, round_trip_wash_trading, dormant_account_reactivation,
  configurable_threshold, sent_before, large_transfer, latest_from,
}
use stellartrace.Rules.Determinism.{evaluate-eq_of_perm}
use stellartrace.Rules.Accuracy.{round_trip_iff, HasReturnLeg, IsReturnLeg}
use stellartrace.Rules.Dormancy.{dormant_iff, IsDormant}
use stellartrace.Rules.Windows.{
  triggers-monotone, configurable_threshold-fires, configurable_threshold-order_matters, with_more,
  exceeds_some,
}
use stellartrace.Tests.Samples.{payment, a_trigger}

-- a payment back, half a second earlier
abbrev back : NormalizedTransaction ℕ
back = record payment {
  tx_hash = "h0";
  source_account = "GBOB";
  destination_account = some "GALICE";
  timestamp = 500;
}

-- a payment of the same account, long before
abbrev old : NormalizedTransaction ℕ
old = record payment { tx_hash = "h2" }

abbrev late : NormalizedTransaction ℕ
late = record payment { tx_hash = "h3"; timestamp = 4_000_000_000 }

abbrev context : RuleContext ℕ
context = record { account_history = back ∷ []; flagged_accounts = [] }

abbrev dormant_context : RuleContext ℕ
dormant_context = record { account_history = old ∷ []; flagged_accounts = [] }

abbrev pair : RulesEngine ℕ ℕ
pair = record { rules = large_transfer_rule ∷ repeated_transaction_rule ∷ [] }

abbrev swapped : RulesEngine ℕ ℕ
swapped = record { rules = repeated_transaction_rule ∷ large_transfer_rule ∷ [] }

evaluate-eq_of_perm_example :
    evaluate pair payment context default_config ≡ evaluate swapped payment context default_config
unfolding large_transfer repeated_transaction
evaluate-eq_of_perm_example =
    evaluate-eq_of_perm payment context default_config pair swapped
      ((λ t h. ground arith), ((λ t h. ground arith), tt)) refl
      (Perm.swap repeated_transaction_rule large_transfer_rule [])

leg : IsReturnLeg payment context (default_config {F = ℕ}) "GBOB" back
unfolding in_window
leg = record {
  recorded = mem-cons_self;
  from_destination = refl;
  to_source = refl;
  earlier = refl;
  recent = refl;
}

round_trip_iff_example :
    (round_trip_wash_trading payment context (default_config {F = ℕ}) ≢ none
      → HasReturnLeg payment context (default_config {F = ℕ}))
    × (HasReturnLeg payment context (default_config {F = ℕ})
        → round_trip_wash_trading payment context (default_config {F = ℕ}) ≢ none)
round_trip_iff_example = round_trip_iff payment context default_config

round_trip-fires : round_trip_wash_trading payment context (default_config {F = ℕ}) ≢ none
round_trip-fires = (round_trip_iff payment context default_config).1 ("GBOB", back, refl, leg)

abbrev dormancy : TriggeredRule
dormancy =
    Option.get_or (dormant_account_reactivation late dormant_context (default_config {F = ℕ}))
      a_trigger

dormancy-fired :
    dormant_account_reactivation late dormant_context (default_config {F = ℕ}) ≡ some dormancy
unfolding dormant_account_reactivation sent_before latest_from whole
dormancy-fired = refl

dormancy-parts : IsDormant late dormant_context (default_config {F = ℕ})
dormancy-parts =
    (dormant_iff late dormant_context default_config milliseconds-IsTimeline).0
      (λ silent. some_none (sym dormancy-fired ∙ silent))
  where
    some_none : some dormancy ≢ none
    some_none e = cc

triggers-monotone_example :
    (abnormal_frequency payment (with_more [] [] [] []) (default_config {F = ℕ}) ≢ none
      → abnormal_frequency payment (with_more [] [] (back ∷ []) []) (default_config {F = ℕ}) ≢ none)
    × (repeated_transaction payment (with_more [] [] [] []) (default_config {F = ℕ}) ≢ none
        → repeated_transaction payment (with_more [] [] (back ∷ []) []) (default_config {F = ℕ})
          ≢ none)
    × (new_account_high_value_outflow payment
            (with_more [] [] (back ∷ []) [])
            (default_config {F = ℕ})
          ≢ none
        → new_account_high_value_outflow payment (with_more [] [] [] []) (default_config {F = ℕ})
          ≢ none)
triggers-monotone_example = triggers-monotone payment default_config [] [] (back ∷ []) []

abbrev pairwise : RulesConfig ℕ
pairwise = record default_config { frequency_count_threshold = 2 }

abbrev limits : RulesConfig ℕ
limits = record default_config { custom_thresholds = ("desk", 10) ∷ ("house", 20) ∷ [] }

configurable_threshold-fires_example :
    (configurable_threshold payment context limits ≢ none)
    ↔ (exceeds_some payment context limits.custom_thresholds ≡ true)
configurable_threshold-fires_example = configurable_threshold-fires payment context limits

configurable_threshold-order_matters_example :
    configurable_threshold payment context
      (record limits { custom_thresholds = ("desk", 10) ∷ ("house", 20) ∷ [] })
    ≢ configurable_threshold payment context
        (record limits { custom_thresholds = ("house", 20) ∷ ("desk", 10) ∷ [] })
unfolding whole
configurable_threshold-order_matters_example =
    configurable_threshold-order_matters payment context limits "desk" "house" 10 20 desk_house refl
      refl
  where
    desk_house : ◌≢◌ {A = String} "desk" "house"
    desk_house e = cc
