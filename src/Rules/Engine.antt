-- ===== src/Rules/Engine.antt =====
-- crates/rules_engine/src/lib.rs: the trait `Rule` as a record, and `RulesEngine`.
use mathlib.Core.List.{foldl, filter_map}
use stellartrace.Prelude.{string_eq, Option, none, some, String, List, [], ◌∷◌, ◌++◌}
use stellartrace.Prelude.HashMap.{HashMap, insert}
use stellartrace.Prelude.Order.{Order, on_key, text_order}
use stellartrace.Prelude.Sort.{sort, sort_by}
use stellartrace.Common.{NormalizedTransaction, TriggeredRule}
use stellartrace.Rules.Config.{RulesConfig}
use stellartrace.Rules.Context.{RuleContext}

-- `trait Rule`
pub record Rule (F T : Type 0) : Type 0 where
  pub id : String
  pub evaluate : NormalizedTransaction T → RuleContext T → RulesConfig F → Option TriggeredRule

pub record RulesEngine (F T : Type 0) : Type 0 where
  pub rules : List (Rule F T)

-- The evidence map that a rule fills by one `insert` after another.
unfoldable pub evidence_of : List (String × String) → HashMap String String
unfolding insert
evidence_of = foldl (λ m entry. insert entry.0 entry.1 m) []

-- `if let Some(dest) = &tx.destination_account { evidence.insert(..) }`
abbrev pub destination_entry : Option String → List (String × String)
destination_entry none = []
destination_entry (some dest) = ("destination_account", dest) ∷ []

-- `|a, b| a.rule_id.cmp(&b.rule_id)`
instance abbrev pub by_rule_id : Order TriggeredRule
by_rule_id = on_key (λ t. t.rule_id) text_order

module _ {F T : Type 0} where
  unfoldable pub register : RulesEngine F T → Rule F T → RulesEngine F T
  register engine rule = record { rules = engine.rules ++ rule ∷ [] }

  unfoldable pub evaluate :
      RulesEngine F T → NormalizedTransaction T → RuleContext T → RulesConfig F → List TriggeredRule
  unfolding sort_by
  evaluate engine tx ctx config =
      sort (filter_map (λ rule. rule.evaluate tx ctx config) engine.rules)
