-- ===== src/Api/Torn.antt =====
-- A snapshot of crates/api/src/persistence.rs that stops between its two files.
use stellartrace.Prelude.{
  Bool, ◌==◌, if-true, if-false, beq_refl, ◌≡◌, ◌≢◌, ap, ◌∙◌, subst, some, false, String, List,
  string_eq, nat_eq,
}
use stellartrace.Prelude.HashMap.{get}
use stellartrace.Prelude.Outcome.{ok, fail}
use stellartrace.Platform.{Unicode, Float, Chrono, IsTimeline, Uuid}
use stellartrace.Common.{Alert}
use stellartrace.Audit.{AuditRecord, Hashing}
use stellartrace.Alerts.{list, get_alert as alert_in}
use stellartrace.Alerts.Keyed.{restore_all-get}
use stellartrace.Alerts.Listing.{list-IsNewestFirst}
use stellartrace.Alerts.Trail.{IsFaithful, trail, told}
use stellartrace.Storage.{
  Serde, Disk, Faults, path_eq, no_faults, save, load, StorageError, load_from, tmp_path,
}
use stellartrace.Storage.Atomic.{save-get, contents_after}
use stellartrace.Api.Error.{UuidText}
use stellartrace.Api.State.{AppState}
use stellartrace.Api.Persistence.{PersistencePaths, new_paths, snapshot}
use stellartrace.Api.Restart.{
  RoundTrips, restore_on_startup-loaded, alerts-saved, json_tmp, and_false,
}
use stellartrace.Rules.{ConfigFiles}
use stellartrace.Api.Startup.{Environment, startup, fresh_state}
use stellartrace.Api.Router.{UuidParse}
use stellartrace.Api.Lives.{Lived}
use stellartrace.Api.Lifetimes.{startup-restore, Lived-IsSound}

module _ {F T : Type 0} ⦃f64 : Float F⦄ ⦃chrono : Chrono T⦄ ⦃hashing : Hashing F T⦄
    ⦃text : UuidText⦄ ⦃unicode : Unicode⦄ ⦃uuid : UuidParse⦄
    ⦃alerts_json : Serde (List (Alert F T))⦄ ⦃audit_json : Serde (List (AuditRecord F T))⦄ where
  -- The file of the log holds that of an earlier round, and the save of this round fails.
  pub record IsStopped (s : AppState F T) (data_dir : String) (disk : Disk) (faults : Faults)
      (old : List (AuditRecord F T)) : Type 0 where
    pub earlier : load disk false (new_paths data_dir).audit ≡ ok (some old)
    pub failed :
        (e : StorageError) × ((save
            (save disk no_faults (new_paths data_dir).alerts (list s.manager)).0
            faults
            (new_paths data_dir).audit
            s.manager.audit).1
          ≡ fail e)

  -- A save that fails leaves the log of the earlier round.
  stopped-load :
      (s : AppState F T) (data_dir : String) (disk : Disk) (faults : Faults)
      (old : List (AuditRecord F T))
      → IsStopped s data_dir disk faults old
      → load
          (save
            (save disk no_faults (new_paths data_dir).alerts (list s.manager)).0
            faults
            (new_paths data_dir).audit
            s.manager.audit).0
          false
          (new_paths data_dir).audit
        ≡ ok (some old)
  unfolding load
  stopped-load s data_dir disk faults old stopped =
      ap (load_from false) (
        save-get once faults paths.audit paths.audit s.manager.audit aside aside
        ∙ if-true (paths.audit == paths.audit) _ (get paths.audit once) (beq_refl paths.audit)
        ∙ ap
            (λ r.
              contents_after r (get paths.audit once) (audit_json.to_vec_pretty s.manager.audit))
            stopped.failed.1
        ∙ save-get disk no_faults paths.alerts paths.audit (list s.manager) apart away
        ∙ if-false (paths.alerts == paths.audit) _ _ (and_false (data_dir == data_dir)))
      ∙ stopped.earlier
    where
      paths : PersistencePaths
      paths = new_paths data_dir

      once : Disk
      once = (save disk no_faults paths.alerts (list s.manager)).0

      aside : paths.audit ≢ tmp_path paths.audit
      aside e = json_tmp (ap (λ p. p.extension) e)

      apart : paths.alerts ≢ tmp_path paths.alerts
      apart e = json_tmp (ap (λ p. p.extension) e)

      away : paths.audit ≢ tmp_path paths.alerts
      away e = json_tmp (ap (λ p. p.extension) e)

  -- If a round of the snapshot saves the alerts and then fails at the log, so that the log of an
  -- earlier round stays, the application that starts from the two files contradicts itself, as soon as
  -- that earlier log does not tell the status of some alert: the alert is restored with a log that tells
  -- another status of it, or none.
  pub torn-unfaithful :
      IsSet F
      → IsSet T
      → IsTimeline T
      → {settled : Bool} {s : AppState F T} → Lived settled s
      → (env : Environment) (files : ConfigFiles F) (data_dir : String) (disk : Disk)
        (faults : Faults) (old : List (AuditRecord F T))
      → env.data_dir ≡ some data_dir
      → RoundTrips alerts_json (list s.manager)
      → IsStopped s data_dir disk faults old
      → (alert_id : Uuid) → trail old alert_id ≢ told (alert_in s.manager alert_id)
      → ¬ IsFaithful {T = T}
          (startup env files
            (snapshot s s (new_paths data_dir) disk no_faults faults)
            false
            false).manager
  unfolding snapshot
  torn-unfaithful float_set instant_set timeline {settled} {s} lived env files data_dir disk faults
        old set alerts_trip stopped alert_id untold faithful =
      untold (
        (subst (λ s. IsFaithful s.manager)
          (startup-restore env files data_dir _ set
            ∙ restore_on_startup-loaded (fresh_state env files) data_dir _ (list s.manager) old
                (alerts-saved disk faults data_dir (list s.manager) s.manager.audit alerts_trip)
                (stopped-load s data_dir disk faults old stopped))
          faithful alert_id)
        ∙ ap told (
            restore_all-get float_set instant_set s.manager.alerts (list s.manager) alert_id
              (Lived-IsSound float_set instant_set timeline lived).keyed
              (list-IsNewestFirst timeline s.manager).0))
