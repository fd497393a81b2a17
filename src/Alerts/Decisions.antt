-- ===== src/Alerts/Decisions.antt =====
-- What `create_alert` and `apply_investigator_decision` of crates/alerts/src/lib.rs do to the store and
-- to the log.
use stellartrace.Prelude.{◌≡◌, ◌≢◌, refl, Option, none, some, List, [], ◌∷◌, ◌++◌, nat_eq}
use stellartrace.Prelude.HashMap.{get, get-insert_ne, get-insert_self}
use stellartrace.Prelude.Outcome.{Result, ok, fail}
use stellartrace.Platform.{Uuid}
use stellartrace.Common.{
  Alert, InvestigatorDecision, NormalizedTransaction, TriggeredRule, Severity, debug_status,
}
use stellartrace.Audit.{
  AuditRecord, Hashing, append, intact, verify_integrity, investigator_decision, status_changed,
}
use stellartrace.Audit.Chain.{append-intact}
use stellartrace.Alerts.Manager.{
  AlertManager, AlertError, not_found, Stamp, get_alert, with_status, create_alert,
  apply_investigator_decision, decide_on, validate_transition,
}

module _ {F T : Type 0} ⦃h : Hashing F T⦄ where
  -- `create_alert` keeps a log that verifies so.
  pub create_alert-intact :
      (m : AlertManager F T) (tx : NormalizedTransaction T) (triggered_rules : List TriggeredRule)
      (score : F) (severity : Severity) (now : T) (alert_id : Uuid) (first second : Stamp T)
      → verify_integrity m.audit ≡ intact
      → verify_integrity
          (create_alert m tx triggered_rules score severity now alert_id first second).0.audit
        ≡ intact
  unfolding create_alert
  create_alert-intact m tx triggered_rules score severity now alert_id first second good =
      append-intact _ second.record_id second.timestamp alert_id tx.tx_hash _
        (append-intact m.audit first.record_id first.timestamp alert_id tx.tx_hash _ good)

  -- So does `apply_investigator_decision`.
  pub decision-intact :
      (m : AlertManager F T) (decision : InvestigatorDecision T) (now : T) (first second : Stamp T)
      → verify_integrity m.audit ≡ intact
      → verify_integrity (apply_investigator_decision m decision now first second).0.audit ≡ intact
  unfolding apply_investigator_decision validate_transition
  decision-intact m decision now first second good = decided (get decision.alert_id m.alerts)
    where
      decided :
          (found : Option (Alert F T))
          → verify_integrity (decide_on m decision now first second found).0.audit ≡ intact
      decided none = good
      decided (some a) =
          append-intact _ second.record_id second.timestamp decision.alert_id a.tx_hash _ (
            append-intact m.audit first.record_id first.timestamp decision.alert_id a.tx_hash _
              good)

  -- The log has grown by the decision on `a` and the change of its status.
  pub record Recorded (m : AlertManager F T) (decision : InvestigatorDecision T) (a : Alert F T)
      (after : AlertManager F T) : Type 0 where
    pub first : AuditRecord F T
    pub second : AuditRecord F T
    pub grown : after.audit ≡ (m.audit ++ first ∷ []) ++ second ∷ []
    pub first_event :
        first.event
        ≡ investigator_decision decision.investigator_id
            (debug_status decision.decision)
            decision.notes
    pub second_event :
        second.event ≡ status_changed (debug_status a.status) (debug_status decision.decision)
    pub of_alert : (first.alert_id ≡ decision.alert_id) × (second.alert_id ≡ decision.alert_id)

  -- What a decision on an alert that is `found` or not comes to.
  abbrev pub IsDecided :
      AlertManager F T
      → InvestigatorDecision T
      → T
      → Option (Alert F T)
      → AlertManager F T × Result (Alert F T) AlertError
      → Type 0
  IsDecided m decision now none (after, result) =
      (after ≡ m) × (result ≡ fail (not_found decision.alert_id))
  IsDecided m decision now (some a) (after, result) =
      (result ≡ ok (with_status a decision.decision now))
      × ((get_alert after decision.alert_id ≡ some (with_status a decision.decision now))
          × (((j : Uuid) → decision.alert_id ≢ j → get_alert after j ≡ get_alert m j)
              × Recorded m decision a after))

  -- A decision on an unknown alert fails with `not_found` and changes nothing. On a known one it
  -- succeeds from every status: it sets the status, keeps all other alerts, and appends the decision
  -- and then the change of status to the log.
  pub apply_investigator_decision-IsDecided :
      (m : AlertManager F T) (decision : InvestigatorDecision T) (now : T) (first second : Stamp T)
      → IsDecided m decision now
          (get_alert m decision.alert_id)
          (apply_investigator_decision m decision now first second)
  unfolding apply_investigator_decision validate_transition append
  apply_investigator_decision-IsDecided m decision now first second =
      decided (get decision.alert_id m.alerts)
    where
      decided :
          (found : Option (Alert F T))
          → IsDecided m decision now found (decide_on m decision now first second found)
      decided none = (refl, refl)
      decided (some a) = (
        refl,
        (
          get-insert_self decision.alert_id _ m.alerts,
          (
            (λ j other. get-insert_ne decision.alert_id j _ m.alerts other),
            record {
              first = _;
              second = _;
              grown = refl;
              first_event = refl;
              second_event = refl;
              of_alert = (refl, refl);
            },
          ),
        ),
      )
