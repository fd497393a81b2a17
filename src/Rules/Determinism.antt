-- ===== src/Rules/Determinism.antt =====
-- The engine's output: sorted, complete, and the same whatever the order of the rules.
use mathlib.Core.List.{
  Mem, Perm, filter_map, mem-cons, not-mem-nil, filter_map-cons-none, filter_map-cons-some,
}
use mathlib.Core.List.Perm
use mathlib.Core.Logic.Or
use text.Mathlib.TextEquality.{IsScalar-prop}
use stellartrace.Prelude.{
  ◌≡◌, refl, sym, ap, ◌∙◌, Bool, true, false, not, ◌&&◌, none, some, String, List, [], ◌∷◌, map,
  All, contains, string_eq, Option-cases, inl, inr, arith,
}
use stellartrace.Prelude.HashMap.{HashMap}
use stellartrace.Prelude.Order.{text_order, text_le_antisymm}
use stellartrace.Prelude.Sort.{IsSorted, sort-IsSorted, sort-perm, sort-eq_of_perm}
use stellartrace.Platform.{Float, Chrono}
use stellartrace.Common.{NormalizedTransaction, TriggeredRule}
use stellartrace.Rules.Config.{RulesConfig}
use stellartrace.Rules.Context.{RuleContext}
use stellartrace.Rules.Engine.{Rule, RulesEngine, evaluate, by_rule_id}
use stellartrace.Rules.Amounts.{
  large_transfer, unusual_asset_movement, configurable_threshold, first_exceeded,
}
use stellartrace.Rules.Activity.{
  repeated_transaction, abnormal_frequency, cross_asset_rapid_conversion,
}
use stellartrace.Rules.Accounts.{
  flagged_account_interaction, dormant_account_reactivation, round_trip_wash_trading,
  new_account_high_value_outflow,
}
use stellartrace.Rules.Catalog.{default_rule_set, with_default_rules}

abbrev pub ids : {F T : Type 0} → List (Rule F T) → List String
ids = map (λ rule. rule.id)

-- No two rules have one identifier.
abbrev pub distinct : List String → Bool
distinct [] = true
distinct (x ∷ xs) = not (contains xs x) && distinct xs

TriggeredRule-set : IsSet TriggeredRule
TriggeredRule-set = hlevel IsScalar-prop

contains_here : (x : String) (xs : List String) (y : String) → x ≡ y → contains (x ∷ xs) y ≡ true
contains_here x xs y h = ground (arith, string_eq.test_iff x y)

contains_later :
    (x : String) (xs : List String) (y : String) → contains xs y ≡ true → contains (x ∷ xs) y ≡ true
contains_later x xs y h = ground arith

distinct_parts :
    (x : String) (xs : List String)
    → distinct (x ∷ xs) ≡ true
    → (contains xs x ≡ false) × (distinct xs ≡ true)
distinct_parts x xs h = ground arith

not_both : (b : Bool) → b ≡ false → b ≡ true → ⊥
not_both b h k = cc

module _ {F T : Type 0} (tx : NormalizedTransaction T) (ctx : RuleContext T)
    (config : RulesConfig F) where
  -- A rule's triggers carry its identifier.
  abbrev pub IsLabelled : Rule F T → Type 0
  IsLabelled rule = (t : TriggeredRule) → rule.evaluate tx ctx config ≡ some t → t.rule_id ≡ rule.id

  abbrev triggers : List (Rule F T) → List TriggeredRule
  triggers = filter_map (λ rule. rule.evaluate tx ctx config)

  -- where the first rule does not fire, and where it does
  triggers-none :
      (rule : Rule F T) (rules : List (Rule F T))
      → rule.evaluate tx ctx config ≡ none
      → triggers (rule ∷ rules) ≡ triggers rules
  triggers-none rule rules h = filter_map-cons-none _ rule rules h

  triggers-some :
      (rule : Rule F T) (rules : List (Rule F T)) {t : TriggeredRule}
      → rule.evaluate tx ctx config ≡ some t
      → triggers (rule ∷ rules) ≡ t ∷ triggers rules
  triggers-some rule rules h = filter_map-cons-some _ rule rules h

  mem-ids :
      (rules : List (Rule F T)) {t : TriggeredRule}
      → All IsLabelled rules
      → Mem t (triggers rules)
      → contains (ids rules) t.rule_id ≡ true
  unfolding filter_map
  mem-ids [] labelled m = absurd (not-mem-nil m)
  mem-ids (rule ∷ rules) {t} labelled m =
      let later = λ (i : Mem t (triggers rules)).
        contains_later rule.id (ids rules) t.rule_id (mem-ids rules labelled.1 i) in
      elim (Option-cases (rule.evaluate tx ctx config)) [
        | inl quiet ↦ later (rw (triggers-none rule rules quiet) at m)
        | inr (u, fired) ↦
            Or.elim (hlevel) (mem-cons.0 (rw (triggers-some rule rules fired) at m))
              (λ (same : t ≡ u).
                contains_here rule.id (ids rules) t.rule_id
                  (sym (labelled.0 t (fired ∙ ap some (sym same)))))
              later
      ]

  -- Two triggers with one identifier are one trigger.
  triggers-IsRanked :
      (rules : List (Rule F T))
      → All IsLabelled rules
      → distinct (ids rules) ≡ true
      → (x y : TriggeredRule) → Mem x (triggers rules)
      → Mem y (triggers rules)
      → x.rule_id ≡ y.rule_id
      → x ≡ y
  unfolding filter_map
  triggers-IsRanked [] labelled d x y mx my h = absurd (not-mem-nil mx)
  triggers-IsRanked (rule ∷ rules) labelled d x y mx my h =
      let (fresh, d') = distinct_parts rule.id (ids rules) d in
      let later = triggers-IsRanked rules labelled.1 d' x y in
      elim (Option-cases (rule.evaluate tx ctx config)) [
        | inl quiet ↦ let e = triggers-none rule rules quiet in later (rw e at mx) (rw e at my) h
        | inr (u, fired) ↦
            let e = triggers-some rule rules fired in
            let own = labelled.0 u fired in
            let clash =
              λ (z : TriggeredRule) (i : Mem z (triggers rules)) (q : z.rule_id ≡ u.rule_id).
                not_both (contains (ids rules) rule.id) fresh
                  (ap (contains (ids rules)) (sym own ∙ sym q) ∙ mem-ids rules labelled.1 i) in
            Or.elim (TriggeredRule-set x y) (mem-cons.0 (rw e at mx))
              (λ (here : x ≡ u).
                Or.elim (TriggeredRule-set x y) (mem-cons.0 (rw e at my))
                  (λ (also : y ≡ u). here ∙ sym also)
                  (λ i. absurd (clash y i (sym h ∙ ap (λ (t : TriggeredRule). t.rule_id) here))))
              (λ i.
                Or.elim (TriggeredRule-set x y) (mem-cons.0 (rw e at my))
                  (λ (also : y ≡ u).
                    absurd (clash x i (h ∙ ap (λ (t : TriggeredRule). t.rule_id) also)))
                  (λ j. later i j h))
      ]

  -- The engine returns its triggers in the order of their identifiers, and returns exactly what
  -- its rules fire: nothing is dropped and nothing is added.
  pub evaluate-IsSorted :
      (engine : RulesEngine F T)
      → IsSorted (evaluate engine tx ctx config)
        × Perm
            (evaluate engine tx ctx config)
            (filter_map (λ rule. rule.evaluate tx ctx config) engine.rules)
  unfolding evaluate
  evaluate-IsSorted engine =
      (sort-IsSorted (triggers engine.rules), sort-perm (triggers engine.rules))

  -- Two engines that hold the same rules in any order return the same list, if the rules have
  -- different identifiers and each labels its triggers with its own.
  pub evaluate-eq_of_perm :
      (engine other : RulesEngine F T)
      → All IsLabelled engine.rules
      → distinct (ids engine.rules) ≡ true
      → Perm engine.rules other.rules
      → evaluate engine tx ctx config ≡ evaluate other tx ctx config
  unfolding evaluate
  evaluate-eq_of_perm engine other labelled d p =
      sort-eq_of_perm
        (λ x y mx my up down.
          triggers-IsRanked engine.rules labelled d x y mx my
            (text_le_antisymm x.rule_id y.rule_id up down))
        (Perm.filter_map (λ rule. rule.evaluate tx ctx config) p)

module _ {F T : Type 0} ⦃f64 : Float F⦄ ⦃chrono : Chrono T⦄ (tx : NormalizedTransaction T)
    (ctx : RuleContext T) (config : RulesConfig F) where
  first_exceeded-label :
      (thresholds : HashMap String F) (t : TriggeredRule)
      → first_exceeded tx thresholds ≡ some t
      → t.rule_id ≡ "configurable_threshold"
  unfolding first_exceeded
  first_exceeded-label [] t h = cc
  first_exceeded-label ((name, threshold) ∷ rest) t h = ground (arith, first_exceeded-label rest t)

  default_rule_set-IsLabelled : All (IsLabelled tx ctx config) (default_rule_set {F = F})
  unfolding large_transfer repeated_transaction abnormal_frequency flagged_account_interaction
      unusual_asset_movement configurable_threshold dormant_account_reactivation
      round_trip_wash_trading new_account_high_value_outflow cross_asset_rapid_conversion
  default_rule_set-IsLabelled = (
    λ t h. ground arith,
    (
      λ t h. ground arith,
      (
        λ t h. ground arith,
        (
          λ t h. ground arith,
          (
            λ t h. ground arith,
            (
              first_exceeded-label config.custom_thresholds,
              (
                λ t h. ground arith,
                (λ t h. ground arith, (λ t h. ground arith, (λ t h. ground arith, tt))),
              ),
            ),
          ),
        ),
      ),
    ),
  )

  -- Whatever the order in which the ten default rules are registered, the default engine returns
  -- the same triggers in the same order.
  pub default_rules-order_free :
      (other : RulesEngine F T)
      → Perm (default_rule_set {F = F} {T = T}) other.rules
      → evaluate (with_default_rules {F = F}) tx ctx config ≡ evaluate other tx ctx config
  default_rules-order_free other p =
      evaluate-eq_of_perm tx ctx config with_default_rules other default_rule_set-IsLabelled refl p
