-- ===== src/Alerts/Manager.antt =====
-- `AlertManager` of crates/alerts/src/lib.rs. The store and the audit log stand behind one lock each;
-- an operation is one step on both. The identifiers and instants that an operation draws are
-- arguments, in the order in which it draws them.
use stellartrace.Prelude.{Bool, Option, none, some, List, [], ◌∷◌, map, filter, nat_eq, ◌==◌}
use stellartrace.Prelude.HashMap.{HashMap, get, insert, values}
use stellartrace.Prelude.Outcome.{Result, ok, fail}
use stellartrace.Prelude.Sort.{sort_by}
use stellartrace.Platform.{Uuid, Chrono}
use stellartrace.Common.{
  Alert, NormalizedTransaction, TriggeredRule, Severity, debug_severity, InvestigationStatus,
  opened, debug_status, status_eq, InvestigatorDecision,
}
use stellartrace.Audit.{
  AuditRecord, Hashing, append, alert_created, rules_triggered, investigator_decision,
  status_changed,
}

pub data AlertError : Type 0 where
  not_found : Uuid → AlertError
  invalid_transition : InvestigationStatus → InvestigationStatus → AlertError

-- `audit` is the log that the manager shares with the rest of the application.
pub record AlertManager (F T : Type 0) : Type 0 where
  pub alerts : HashMap Uuid (Alert F T)
  pub audit : List (AuditRecord F T)

-- What one `AuditLog::append` draws: the record's identifier and its instant.
pub record Stamp (T : Type 0) : Type 0 where
  pub record_id : Uuid
  pub timestamp : T

module _ {F T : Type 0} where
  -- `AlertManager::new`, with an empty log
  abbrev pub new_manager : AlertManager F T
  new_manager = record { alerts = []; audit = [] }

  -- the alert that `create_alert` makes
  abbrev pub alert_of :
      NormalizedTransaction T → List TriggeredRule → F → Severity → T → Uuid → Alert F T
  alert_of tx triggered_rules anomaly_score severity now alert_id = record {
    alert_id = alert_id;
    tx_hash = tx.tx_hash;
    source_account = tx.source_account;
    destination_account = tx.destination_account;
    asset = tx.asset;
    amount = tx.amount;
    timestamp = tx.timestamp;
    triggered_rules = triggered_rules;
    anomaly_score = anomaly_score;
    severity = severity;
    status = opened;
    created_at = now;
    updated_at = now;
  }

  -- an alert with another status, touched at `now`
  abbrev pub with_status : Alert F T → InvestigationStatus → T → Alert F T
  with_status a status now = record {
    alert_id = a.alert_id;
    tx_hash = a.tx_hash;
    source_account = a.source_account;
    destination_account = a.destination_account;
    asset = a.asset;
    amount = a.amount;
    timestamp = a.timestamp;
    triggered_rules = a.triggered_rules;
    anomaly_score = a.anomaly_score;
    severity = a.severity;
    status = status;
    created_at = a.created_at;
    updated_at = now;
  }

  -- `AlertManager::get`
  abbrev pub get_alert : AlertManager F T → Uuid → Option (Alert F T)
  get_alert m alert_id = get alert_id m.alerts

  -- the loop of `AlertManager::restore`
  unfoldable pub restore_all :
      List (Alert F T) → HashMap Uuid (Alert F T) → HashMap Uuid (Alert F T)
  restore_all [] store = store
  restore_all (a ∷ alerts) store = restore_all alerts (insert a.alert_id a store)

  abbrev pub restore_alerts : AlertManager F T → List (Alert F T) → AlertManager F T
  restore_alerts m alerts = record { alerts = restore_all alerts m.alerts; audit = m.audit }

unfoldable pub validate_transition :
    InvestigationStatus → InvestigationStatus → Result Unit AlertError
validate_transition from to = ok tt

module _ {F T : Type 0} ⦃chrono : Chrono T⦄ where
  -- `sort_by_key(|a| Reverse(a.created_at))`
  abbrev pub created_later : Alert F T → Alert F T → Bool
  created_later a b = chrono.at_most b.created_at a.created_at

  unfoldable pub list : AlertManager F T → List (Alert F T)
  unfolding sort_by
  list m = sort_by created_later (values m.alerts)

  unfoldable pub list_by_status : AlertManager F T → InvestigationStatus → List (Alert F T)
  list_by_status m status = filter (λ a. a.status == status) (list m)

module _ {F T : Type 0} ⦃h : Hashing F T⦄ where
  unfoldable pub create_alert :
      AlertManager F T
      → NormalizedTransaction T
      → List TriggeredRule
      → F
      → Severity
      → T
      → Uuid
      → Stamp T
      → Stamp T
      → AlertManager F T × Alert F T
  create_alert m tx triggered_rules anomaly_score severity now alert_id first second =
      let alert = alert_of tx triggered_rules anomaly_score severity now alert_id in
      let audit =
        append m.audit first.record_id first.timestamp alert.alert_id tx.tx_hash
          (alert_created anomaly_score (debug_severity severity)) in
      (
        record {
          alerts = insert alert.alert_id alert m.alerts;
          audit =
              append audit second.record_id second.timestamp alert.alert_id tx.tx_hash
                (rules_triggered (map (λ r. r.rule_id) triggered_rules));
        },
        alert,
      )

  -- what `apply_investigator_decision` does once it has found the alert and the transition is valid
  abbrev pub decide :
      AlertManager F T
      → InvestigatorDecision T
      → Alert F T
      → T
      → Stamp T
      → Stamp T
      → AlertManager F T × Alert F T
  decide m decision alert now first second =
      let updated = with_status alert decision.decision now in
      let audit = append m.audit first.record_id first.timestamp decision.alert_id updated.tx_hash (
        investigator_decision decision.investigator_id (debug_status decision.decision)
          decision.notes) in
      (
        record {
          alerts = insert decision.alert_id updated m.alerts;
          audit =
              append audit second.record_id second.timestamp decision.alert_id updated.tx_hash
                (status_changed (debug_status alert.status) (debug_status decision.decision));
        },
        updated,
      )

  -- `?` on the result of `validate_transition`
  abbrev pub decide_if :
      AlertManager F T
      → InvestigatorDecision T
      → Alert F T
      → T
      → Stamp T
      → Stamp T
      → Result Unit AlertError
      → AlertManager F T × Result (Alert F T) AlertError
  decide_if m decision alert now first second (fail e) = (m, fail e)
  decide_if m decision alert now first second (ok _) =
      let done = decide m decision alert now first second in (done.0, ok done.1)

  -- `ok_or(AlertError::NotFound(..))?` on the alert found
  abbrev pub decide_on :
      AlertManager F T
      → InvestigatorDecision T
      → T
      → Stamp T
      → Stamp T
      → Option (Alert F T)
      → AlertManager F T × Result (Alert F T) AlertError
  decide_on m decision now first second none = (m, fail (not_found decision.alert_id))
  decide_on m decision now first second (some alert) =
      decide_if m decision alert now first second
        (validate_transition alert.status decision.decision)

  unfoldable pub apply_investigator_decision :
      AlertManager F T
      → InvestigatorDecision T
      → T
      → Stamp T
      → Stamp T
      → AlertManager F T × Result (Alert F T) AlertError
  unfolding validate_transition
  apply_investigator_decision m decision now first second =
      decide_on m decision now first second (get decision.alert_id m.alerts)
