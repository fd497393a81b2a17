-- ===== src/Alerts/Interleaved.antt =====
-- Two calls of `apply_investigator_decision` of crates/alerts/src/lib.rs at once. The call stores the
-- new status under the lock of the alerts, releases it, and only then appends to the log.
use stellartrace.Prelude.{
  ◌≡◌, ◌≢◌, refl, sym, ap, ◌∙◌, some, String, List, nat_eq, string_eq, ◌==◌, if◌then◌else◌, if-true,
  if-false, beq_refl, Bool-cases, inl, inr,
}
use stellartrace.Prelude.HashMap.{insert, get-insert_self}
use stellartrace.Common.{
  Alert, InvestigationStatus, InvestigatorDecision, debug_status, opened, under_investigation,
  escalated, dismissed, confirmed_suspicious,
}
use stellartrace.Audit.{AuditRecord, Hashing, append, investigator_decision, status_changed}
use stellartrace.Alerts.Manager.{
  AlertManager, Stamp, get_alert, with_status, apply_investigator_decision, validate_transition,
  decide_on,
}
use stellartrace.Alerts.Trail.{
  IsFaithful, trail, trail-append₂, corrupt, at, after, changing, remarking, told,
}

-- The status of a name, to tell names apart.
abbrev status_of : String → InvestigationStatus
status_of name =
    if name == "Open"
    then opened
    else if name == "UnderInvestigation"
    then under_investigation
    else if name == "Escalated"
    then escalated
    else if name == "Dismissed"
    then dismissed
    else confirmed_suspicious

status_of-debug_status : (s : InvestigationStatus) → status_of (debug_status s) ≡ s
unfolding debug_status
status_of-debug_status opened = refl
status_of-debug_status under_investigation = refl
status_of-debug_status escalated = refl
status_of-debug_status dismissed = refl
status_of-debug_status confirmed_suspicious = refl

debug_status_injective : (s t : InvestigationStatus) → debug_status s ≡ debug_status t → s ≡ t
debug_status_injective s t e =
    sym (status_of-debug_status s) ∙ ap status_of e ∙ status_of-debug_status t

unreached :
    (s t : InvestigationStatus) (to : String)
    → t ≢ s
    → changing (at (debug_status s)) (debug_status t) to ≡ corrupt
unreached s t to differ = elim (Bool-cases (debug_status s == debug_status t)) [
  | inl e ↦ absurd (differ (sym (debug_status_injective s t ((string_eq.test_iff _ _).0 e))))
  | inr e ↦ if-false _ _ _ e
]

module _ {F T : Type 0} where
  -- the part under the lock, on the alert that it has found
  abbrev pub store_decision :
      AlertManager F T → InvestigatorDecision T → Alert F T → T → AlertManager F T
  store_decision m decision alert now = record {
    alerts = insert decision.alert_id (with_status alert decision.decision now) m.alerts;
    audit = m.audit;
  }

module _ {F T : Type 0} ⦃h : Hashing F T⦄ where
  -- the part after it, with the status from which the alert has changed
  abbrev pub log_decision :
      AlertManager F T
      → InvestigatorDecision T
      → InvestigationStatus
      → String
      → Stamp T
      → Stamp T
      → AlertManager F T
  log_decision m decision from tx_hash first second = record {
    alerts = m.alerts;
    audit =
        append
          (append m.audit first.record_id first.timestamp decision.alert_id tx_hash (
            investigator_decision decision.investigator_id (debug_status decision.decision)
              decision.notes))
          second.record_id second.timestamp decision.alert_id tx_hash
          (status_changed (debug_status from) (debug_status decision.decision));
  }

  -- Without another call in between, the two parts are the call.
  pub apply_investigator_decision-parts :
      (m : AlertManager F T) (decision : InvestigatorDecision T) (a : Alert F T) (now : T)
      (first second : Stamp T)
      → get_alert m decision.alert_id ≡ some a
      → (apply_investigator_decision m decision now first second).0
        ≡ log_decision (store_decision m decision a now) decision a.status a.tx_hash first second
  unfolding apply_investigator_decision validate_transition
  apply_investigator_decision-parts m decision a now first second found =
      ap (λ o. (decide_on m decision now first second o).0) found

  -- If one decision is stored and another one on the same alert is stored and logged before the first
  -- is logged, the alert has the second status while the log contradicts itself: it changes from a
  -- status that it has not reached. It is assumed that the log was faithful and the first decision
  -- changes the status.
  pub trail-interleaved :
      (m : AlertManager F T) (one two : InvestigatorDecision T) (a : Alert F T) (now later : T)
      (r s t u : Stamp T)
      → IsFaithful m
      → get_alert m one.alert_id ≡ some a
      → two.alert_id ≡ one.alert_id
      → one.decision ≢ a.status
      → let between = with_status a one.decision now in
        let stored = store_decision (store_decision m one a now) two between later in
        let final =
          log_decision
            (log_decision stored two one.decision a.tx_hash r s)
            one
            a.status
            a.tx_hash
            t
            u in
        (get_alert final two.alert_id ≡ some (with_status between two.decision later))
        × (trail final.audit one.alert_id ≡ corrupt)
  unfolding after
  trail-interleaved m one two a now later r s t u faithful found same changes = (
    get-insert_self two.alert_id _ _,
    trail-append₂ logged t.record_id u.record_id t.timestamp u.timestamp one.alert_id a.tx_hash
          a.tx_hash _ _ one.alert_id
        ∙ if-true (one.alert_id == one.alert_id) _ _ (beq_refl one.alert_id)
        ∙ ap (λ x. changing (remarking x) (debug_status a.status) (debug_status one.decision))
            contradicted,
  )
    where
      logged : List (AuditRecord F T)
      logged =
          append
            (append m.audit r.record_id r.timestamp two.alert_id a.tx_hash
              (investigator_decision two.investigator_id (debug_status two.decision) two.notes))
            s.record_id s.timestamp two.alert_id a.tx_hash
            (status_changed (debug_status one.decision) (debug_status two.decision))

      contradicted : trail logged one.alert_id ≡ corrupt
      contradicted =
          trail-append₂ m.audit r.record_id s.record_id r.timestamp s.timestamp two.alert_id
            a.tx_hash a.tx_hash _ _ one.alert_id
          ∙ if-true (two.alert_id == one.alert_id) _ _
              ((nat_eq.test_iff two.alert_id one.alert_id).1 same)
          ∙ ap (λ x. changing (remarking x) (debug_status one.decision) (debug_status two.decision))
              (faithful one.alert_id ∙ ap told found)
          ∙ unreached a.status one.decision (debug_status two.decision) changes
