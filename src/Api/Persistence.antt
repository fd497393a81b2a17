-- ===== src/Api/Persistence.antt =====
-- crates/api/src/persistence.rs: what a restart restores, and one round of the periodic snapshot. The
-- messages to the log are left out. A read that fails is an argument.
use stellartrace.Prelude.{Bool, Option, none, some, String, List}
use stellartrace.Prelude.Outcome.{Result, ok, fail}
use stellartrace.Platform.{Chrono}
use stellartrace.Common.{Alert}
use stellartrace.Audit.{AuditRecord, restore}
use stellartrace.Alerts.{list, restore_alerts}
use stellartrace.Storage.{Serde, FilePath, Disk, Faults, StorageError, save, load}
use stellartrace.Api.State.{AppState, with_manager}

pub record PersistencePaths : Type 0 where
  pub alerts : FilePath
  pub audit : FilePath

-- `PersistencePaths::new`
abbrev pub new_paths : String → PersistencePaths
new_paths data_dir = record {
  alerts = record { parent = data_dir; stem = "alerts"; extension = "json" };
  audit = record { parent = data_dir; stem = "audit"; extension = "json" };
}

module _ {F T : Type 0} where
  abbrev pub restore_loaded_alerts :
      AppState F T → Result (Option (List (Alert F T))) StorageError → AppState F T
  restore_loaded_alerts s (ok (some alerts)) = with_manager s (restore_alerts s.manager alerts)
  restore_loaded_alerts s (ok none) = s
  restore_loaded_alerts s (fail e) = s

  -- The log is replaced before it is verified, and stays replaced whatever the verification says.
  abbrev pub restore_loaded_audit :
      AppState F T → Result (Option (List (AuditRecord F T))) StorageError → AppState F T
  restore_loaded_audit s (ok (some records)) =
      with_manager s (record { alerts = s.manager.alerts; audit = restore s.manager.audit records })
  restore_loaded_audit s (ok none) = s
  restore_loaded_audit s (fail e) = s

module _ {F T : Type 0} ⦃alerts_json : Serde (List (Alert F T))⦄
    ⦃audit_json : Serde (List (AuditRecord F T))⦄ where
  unfoldable pub restore_on_startup :
      AppState F T → PersistencePaths → Disk → Bool → Bool → AppState F T
  restore_on_startup s paths disk alerts_unreadable audit_unreadable =
      let with_alerts = restore_loaded_alerts s (load disk alerts_unreadable paths.alerts) in
      restore_loaded_audit with_alerts (load disk audit_unreadable paths.audit)

  -- The body of the loop of `spawn_periodic_snapshot`. The task reads the alerts in the state
  -- `at_alerts`, saves them, and only then reads the log, in the state `at_audit`: requests that are
  -- served in between have changed the one into the other.
  unfoldable pub snapshot :
      ⦃chrono : Chrono T⦄
      → (at_alerts at_audit : AppState F T) → PersistencePaths
      → Disk
      → Faults
      → Faults
      → Disk
  snapshot at_alerts at_audit paths disk alerts_faults audit_faults =
      let saved = (save disk alerts_faults paths.alerts (list at_alerts.manager)).0 in
      (save saved audit_faults paths.audit at_audit.manager.audit).0
