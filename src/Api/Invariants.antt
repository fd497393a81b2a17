-- ===== src/Api/Invariants.antt =====
-- What holds in every state that the handlers of crates/api/src/handlers.rs reach, and what no step
-- takes back.
use stellartrace.Prelude.{
  ◌≡◌, refl, sym, subst, inl, inr, Option, none, some, List, [], ◌∷◌, ◌++◌, nat_eq, string_eq,
}
use mathlib.Core.List.{append_assoc, append-nil}
use stellartrace.Prelude.HashMap.{get}
use stellartrace.Platform.{Unicode, Float}
use stellartrace.Common.{Alert, InvestigatorDecision, status_eq}
use stellartrace.Audit.{AuditRecord, Hashing, intact, verify_integrity, verify_from, append}
use stellartrace.Audit.Chain.{append-intact}
use stellartrace.Alerts.{
  AlertManager, Stamp, apply_investigator_decision, create_alert, validate_transition, decide_on,
}
use stellartrace.Alerts.Decisions.{create_alert-intact, decision-intact}
use stellartrace.Alerts.Trail.{IsFaithful}
use stellartrace.Alerts.Faithful.{
  create_alert-IsFaithful, decision-IsFaithful, context-IsFaithful, advice-IsFaithful,
  new_manager-IsFaithful,
}
use stellartrace.Api.Error.{UuidText}
use stellartrace.Api.State.{AppState}
use stellartrace.Api.Review.{decision_of}
use stellartrace.Api.Steps.{Step, Reachable, start, next, Effect, same, told, created, remarked}
use stellartrace.Api.Cases.{step-cases, Decided-manager}

module _ {F T : Type 0} ⦃f64 : Float F⦄ ⦃hashing : Hashing F T⦄ ⦃text : UuidText⦄
    ⦃unicode : Unicode⦄ where
  -- What a property of the alert manager owes for every step to keep it.
  pub step-keeps :
      (P : AlertManager F T → Type 0)
      → ((m m' : AlertManager F T) → Effect m m' → P m → P m')
      → ((m : AlertManager F T) (decision : InvestigatorDecision T) (now : T)
            (first second : Stamp T)
          → P m
          → P (apply_investigator_decision m decision now first second).0)
      → {s s' : AppState F T} → Step s s'
      → P s.manager
      → P s'.manager
  step-keeps P quiet decides {s} step p = elim (step-cases step) [
    | inl (effect, flags) ↦ quiet _ _ effect p
    | inr d ↦ subst P (sym (Decided-manager d)) (
        decides s.manager (decision_of d.user d.alert_id d.req d.decided_at) d.now d.first d.second
          p)
  ]

  pub Effect-intact :
      (m m' : AlertManager F T)
      → Effect m m'
      → verify_integrity m.audit ≡ intact
      → verify_integrity m'.audit ≡ intact
  Effect-intact m m' same good = good
  Effect-intact m m' (created tx rules score severity draws fresh) good =
      create_alert-intact m tx rules score severity draws.now draws.alert_id draws.first
        draws.second good
  Effect-intact m m' (told alert_id a summary first found) good =
      append-intact m.audit first.record_id first.timestamp alert_id a.tx_hash _ good
  Effect-intact m m' (remarked alert_id a summary confidence available first second found) good =
      append-intact _ second.record_id second.timestamp alert_id a.tx_hash _
        (append-intact m.audit first.record_id first.timestamp alert_id a.tx_hash _ good)

  -- In every state that the handlers reach from an empty start, the audit log verifies.
  pub Reachable-intact :
      {s : AppState F T} → Reachable s → verify_integrity s.manager.audit ≡ intact
  unfolding verify_integrity verify_from
  Reachable-intact (start rules_engine rules_config auth) = refl
  Reachable-intact (next reached step) =
      step-keeps (λ m. verify_integrity m.audit ≡ intact) Effect-intact decision-intact step
        (Reachable-intact reached)

  pub Effect-IsFaithful : (m m' : AlertManager F T) → Effect m m' → IsFaithful m → IsFaithful m'
  Effect-IsFaithful m m' same faithful = faithful
  Effect-IsFaithful m m' (created tx rules score severity draws fresh) faithful =
      create_alert-IsFaithful m tx rules score severity draws.now draws.alert_id draws.first
        draws.second faithful fresh
  Effect-IsFaithful m m' (told alert_id a summary first found) faithful =
      context-IsFaithful m alert_id a summary first faithful found
  Effect-IsFaithful m m' (remarked alert_id a summary confidence available first second found)
        faithful =
      advice-IsFaithful m alert_id a summary confidence available first second faithful found

  -- In every state that the handlers reach from an empty start the audit log tells of each alert
  -- exactly the status that it has, reached by changes that each start where the last one ended,
  -- and nothing of identifiers without an alert.
  pub Reachable-IsFaithful : {s : AppState F T} → Reachable s → IsFaithful s.manager
  Reachable-IsFaithful (start rules_engine rules_config auth) = new_manager-IsFaithful F T
  Reachable-IsFaithful (next reached step) =
      step-keeps IsFaithful Effect-IsFaithful decision-IsFaithful step
        (Reachable-IsFaithful reached)

  -- The log `records` is `earlier` with more records behind.
  pub record Extends (records earlier : List (AuditRecord F T)) : Type 0 where
    pub added : List (AuditRecord F T)
    pub split : records ≡ earlier ++ added

  twice :
      (xs : List (AuditRecord F T)) (a b : AuditRecord F T) → Extends ((xs ++ a ∷ []) ++ b ∷ []) xs
  twice xs a b = record { added = a ∷ b ∷ []; split = append_assoc xs (a ∷ []) (b ∷ []) }

  Effect-Extends : (m m' : AlertManager F T) → Effect m m' → Extends m'.audit m.audit
  unfolding append create_alert
  Effect-Extends m m' same = record { added = []; split = sym (append-nil m.audit) }
  Effect-Extends m m' (created tx rules score severity draws fresh) = twice m.audit _ _
  Effect-Extends m m' (told alert_id a summary first found) = record {
    added = _ ∷ [];
    split = refl;
  }
  Effect-Extends m m' (remarked alert_id a summary confidence available first second found) =
      twice m.audit _ _

  decision-Extends :
      (m : AlertManager F T) (decision : InvestigatorDecision T) (now : T) (first second : Stamp T)
      → Extends (apply_investigator_decision m decision now first second).0.audit m.audit
  unfolding append apply_investigator_decision validate_transition
  decision-Extends m decision now first second = decides (get decision.alert_id m.alerts)
    where
      decides :
          (found : Option (Alert F T))
          → Extends (decide_on m decision now first second found).0.audit m.audit
      decides none = record { added = []; split = sym (append-nil m.audit) }
      decides (some a) = twice m.audit _ _

  -- No step removes or alters a record: the log after it is the log before it with records added.
  pub step-Extends : {s s' : AppState F T} → Step s s' → Extends s'.manager.audit s.manager.audit
  step-Extends {s} {s'} step = elim (step-cases step) [
    | inl (effect, flags) ↦ Effect-Extends s.manager s'.manager effect
    | inr d ↦
        subst (λ m. Extends m.audit s.manager.audit) (sym (Decided-manager d))
          (decision-Extends s.manager (decision_of d.user d.alert_id d.req d.decided_at) d.now
            d.first d.second)
  ]
