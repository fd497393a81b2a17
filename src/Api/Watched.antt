-- ===== src/Api/Watched.antt =====
-- What a confirmed alert means for later transactions: the flags that crates/api sets, read by the rule
-- of crates/rules_engine, raise the next alert.
use mathlib.Core.List.{Mem, mem-filter_map, not-mem-nil}
use mathlib.Core.List.Perm
use stellartrace.Prelude.{
  if-true, ◌≡◌, refl, sym, ap, subst, ◌∙◌, ◌||◌, ◌⊎◌, inl, inr, true, some, String, List, contains,
  nat_eq, string_eq, arith,
}
use stellartrace.Platform.{Float, IsIeee, Unicode, Uuid}
use stellartrace.Common.{Alert, NormalizedTransaction, TriggeredRule, confirmed_suspicious}
use stellartrace.Rules.{
  RuleContext, RulesConfig, Rule, destination_flagged, flagged_account_interaction,
  flagged_account_interaction_rule,
}
use stellartrace.Rules.Determinism.{evaluate-IsSorted}
use stellartrace.Audit.{Hashing}
use stellartrace.Alerts.{get_alert as alert_in}
use stellartrace.Api.Error.{UuidText}
use stellartrace.Api.State.{AppState}
use stellartrace.Api.Evaluation.{Draws, EvaluationResult, run_evaluation, context_of}
use stellartrace.Api.Steps.{Reachable}
use stellartrace.Api.Flags.{IsCovered, Reachable-IsCoveredBy}
use stellartrace.Api.Evaluated.{triggers, IsRaised, run_evaluation-IsEvaluation}

-- The account sends the transaction or receives it.
abbrev pub IsInvolved : {T : Type 0} → String → NormalizedTransaction T → Type 0
IsInvolved account tx = (tx.source_account ≡ account) ⊎ (tx.destination_account ≡ some account)

-- The account is one of the two that the alert is about.
abbrev pub IsParty : {F T : Type 0} → String → Alert F T → Type 0
IsParty account a = (a.source_account ≡ account) ⊎ (a.destination_account ≡ some account)

-- A trigger of the rule for flagged accounts.
abbrev pub IsFlagging : TriggeredRule → Type 0
IsFlagging t = t.rule_id ≡ "flagged_account_interaction"

either-flagged :
    {T : Type 0} (flagged : List String) (tx : NormalizedTransaction T) (account : String)
    → IsInvolved account tx
    → contains flagged account ≡ true
    → (contains flagged tx.source_account || destination_flagged tx.destination_account flagged)
      ≡ true
either-flagged flagged tx account (inl e) listed =
    let sent : contains flagged tx.source_account ≡ true =
      subst (λ x. contains flagged x ≡ true) (sym e) listed in
    ground arith
either-flagged flagged tx account (inr e) listed =
    let received : destination_flagged tx.destination_account flagged ≡ true =
      ap (λ d. destination_flagged d flagged) e ∙ listed in
    ground arith

module _ {F T : Type 0} where
  flagged_account_interaction-fires :
      (tx : NormalizedTransaction T) (ctx : RuleContext T) (config : RulesConfig F)
      (account : String)
      → IsInvolved account tx
      → contains ctx.flagged_accounts account ≡ true
      → (t : TriggeredRule) × (flagged_account_interaction tx ctx config ≡ some t) × IsFlagging t
  unfolding flagged_account_interaction
  flagged_account_interaction-fires tx ctx config account involved listed =
      (_, if-true _ _ _ (either-flagged ctx.flagged_accounts tx account involved listed), refl)

  IsCovered-party :
      (flagged : List String) (a : Alert F T) (account : String)
      → IsCovered flagged a
      → IsParty account a
      → contains flagged account ≡ true
  IsCovered-party flagged a account (source, dest) (inl e) =
      subst (λ x. contains flagged x ≡ true) e source
  IsCovered-party flagged a account (source, dest) (inr e) = dest account e

module _ {F T : Type 0} ⦃f64 : Float F⦄ ⦃hashing : Hashing F T⦄ ⦃text : UuidText⦄
    ⦃unicode : Unicode⦄ where
  rule-triggers :
      (s : AppState F T) (tx : NormalizedTransaction T) (draws : Draws T) (rule : Rule F T)
      (t : TriggeredRule)
      → Mem rule s.rules_engine.rules
      → rule.evaluate tx (context_of s tx) s.rules_config ≡ some t
      → Mem t (triggers s tx draws)
  rule-triggers s tx draws rule t registered fires =
      (Perm.mem_iff (evaluate-IsSorted tx (context_of s tx) s.rules_config s.rules_engine).1).1 (
        (mem-filter_map (λ rule. rule.evaluate tx (context_of s tx) s.rules_config)
            s.rules_engine.rules).1
          ∣ (rule, registered, fires) ∣₁)

  -- A transaction that involves a party of a confirmed alert fires the rule for flagged accounts.
  watched-triggers :
      {s : AppState F T}
      → Reachable s
      → Mem flagged_account_interaction_rule s.rules_engine.rules
      → (alert_id : Uuid) {a : Alert F T} → alert_in s.manager alert_id ≡ some a
      → a.status ≡ confirmed_suspicious
      → (account : String) → IsParty account a
      → (tx : NormalizedTransaction T) (draws : Draws T) → IsInvolved account tx
      → (t : TriggeredRule) × Mem t (triggers s tx draws) × IsFlagging t
  watched-triggers {s} reached registered alert_id {a} found confirmed account party tx draws
        involved =
      let listed =
        IsCovered-party s.flagged_accounts a account
          (Reachable-IsCoveredBy reached alert_id a found confirmed) party in
      let (t, fires, flagging) =
        flagged_account_interaction-fires tx (context_of s tx) s.rules_config account involved
          listed in
      (t, rule-triggers s tx draws flagged_account_interaction_rule t registered fires, flagging)

  -- Once an alert is confirmed as suspicious, each later transaction that its source or its destination
  -- sends or receives raises another alert, whatever its amount and whatever the history: its
  -- evaluation does not panic and stores an open alert, with a trigger of the rule for flagged
  -- accounts among its triggers. The engine holds that rule, as by default, no restart lies in between,
  -- and the floats are IEEE 754.
  pub confirmed-watched :
      IsIeee F
      → {s : AppState F T} → Reachable s
      → Mem flagged_account_interaction_rule s.rules_engine.rules
      → (alert_id : Uuid) {a : Alert F T} → alert_in s.manager alert_id ≡ some a
      → a.status ≡ confirmed_suspicious
      → (account : String) → IsParty account a
      → (tx : NormalizedTransaction T) (draws : Draws T) → IsInvolved account tx
      → (done : AppState F T × EvaluationResult F T) × (run_evaluation s tx draws ≡ some done)
        × IsRaised s tx draws done
        × ((t : TriggeredRule) × Mem t done.1.triggered_rules × IsFlagging t)
  confirmed-watched laws {s} reached registered alert_id found confirmed account party tx draws
        involved =
      let (t, inside, flagging) =
        watched-triggers reached registered alert_id found confirmed account party tx draws
          involved in
      let (done, ran, evaluation) = run_evaluation-IsEvaluation s tx draws laws in
      elim evaluation.alerting [
        | inl (empty, quiet) ↦ absurd (not-mem-nil (subst (Mem t) empty inside))
        | inr (some_rule, raised) ↦
            (done, ran, raised, (t, subst (Mem t) (sym evaluation.fired) inside, flagging))
      ]
