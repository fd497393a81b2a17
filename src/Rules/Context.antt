-- ===== src/Rules/Context.antt =====
-- crates/rules_engine/src/context.rs: what a rule may look at besides the transaction.
use stellartrace.Prelude.{Bool, ◌&&◌, String, List, filter}
use stellartrace.Prelude.Int.{ℤ, abs, leb_ℤ}
use stellartrace.Platform.{Chrono}
use stellartrace.Common.{NormalizedTransaction}

pub record RuleContext (T : Type 0) : Type 0 where
  pub account_history : List (NormalizedTransaction T)
  -- a `HashSet`, of which only `contains` is used
  pub flagged_accounts : List String

module _ {T : Type 0} ⦃chrono : Chrono T⦄ where
  -- The test of `within_window`.
  unfoldable pub in_window : T → ℤ → NormalizedTransaction T → Bool
  in_window at window_secs tx =
      leb_ℤ (abs (chrono.num_seconds at tx.timestamp)) window_secs && chrono.at_most tx.timestamp at

  unfoldable pub within_window : RuleContext T → T → ℤ → List (NormalizedTransaction T)
  within_window ctx at window_secs = filter (in_window at window_secs) ctx.account_history
