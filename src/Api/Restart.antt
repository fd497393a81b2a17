-- ===== src/Api/Restart.antt =====
-- What comes back after a restart, through crates/api/src/persistence.rs.
use stellartrace.Prelude.{
  ◌≡◌, ◌≢◌, refl, sym, ap, ap₂, subst, ◌∙◌, Bool, true, false, ◌&&◌, string_eq, Option, none, some,
  String, List, ◌==◌, nat_eq, if-false,
}
use stellartrace.Prelude.HashMap.{get, get-insert_self}
use stellartrace.Prelude.Outcome.{ok}
use stellartrace.Platform.{Unicode, Float, Chrono, IsTimeline, Uuid, Bytes}
use stellartrace.Common.{Alert, InvestigatorDecision}
use stellartrace.Audit.{AuditRecord, Hashing, restore}
use stellartrace.Alerts.{
  restore_all, AlertManager, Stamp, list, new_manager, get_alert as alert_in,
  apply_investigator_decision, decide_on, validate_transition, create_alert,
}
use stellartrace.Alerts.Keyed.{IsKeyed, insert-IsKeyed, get-mem, restore_all-get}
use stellartrace.Alerts.Listing.{list-IsNewestFirst}
use stellartrace.Storage.{
  Serde, FilePath, path_eq, Disk, Faults, no_faults, tmp_path, save, load, save_json, load_from,
  parsed,
}
use stellartrace.Storage.Atomic.{save-get}
use stellartrace.Api.Error.{UuidText}
use stellartrace.Api.State.{AppState, with_manager}
use stellartrace.Api.Steps.{Reachable, start, next, Effect, same, told, created, remarked}
use stellartrace.Api.Invariants.{step-keeps}
use stellartrace.Api.Persistence.{
  new_paths, restore_on_startup, snapshot, restore_loaded_alerts, restore_loaded_audit,
}

-- Serializing this value and parsing the result gives the value back.
pub record RoundTrips {A : Type 0} (serde_json : Serde A) (a : A) : Type 0 where
  pub json : Bytes
  pub written : serde_json.to_vec_pretty a ≡ some json
  pub read : serde_json.from_slice json ≡ some a

pub json_tmp : ◌≢◌ {A = String} "json" "json.tmp"
json_tmp e = cc

pub and_false : (b : Bool) → (b && false) ≡ false
and_false true = refl
and_false false = refl

module _ {A : Type 0} ⦃serde_json : Serde A⦄ where
  pub saved-get :
      (disk : Disk) (path : FilePath) (a : A)
      → (trip : RoundTrips serde_json a) → get path (save disk no_faults path a).0 ≡ some trip.json
  unfolding save
  saved-get disk path a trip =
      ap (λ o. get path (save_json disk no_faults path o).0) trip.written
      ∙ get-insert_self path trip.json _

  pub load-saved :
      (disk : Disk) (path : FilePath) (a : A) (trip : RoundTrips serde_json a)
      → get path disk ≡ some trip.json
      → load disk false path ≡ ok (some a)
  unfolding load
  load-saved disk path a trip found = ap (load_from false) found ∙ ap parsed trip.read

module _ {F T : Type 0} ⦃f64 : Float F⦄ ⦃hashing : Hashing F T⦄ ⦃text : UuidText⦄
    ⦃unicode : Unicode⦄ where
  pub Effect-IsKeyed :
      (m m' : AlertManager F T) → Effect m m' → IsKeyed m.alerts → IsKeyed m'.alerts
  unfolding create_alert
  Effect-IsKeyed m m' same keyed = keyed
  Effect-IsKeyed m m' (created tx rules score severity draws fresh) keyed =
      insert-IsKeyed _ draws.alert_id m.alerts refl keyed
  Effect-IsKeyed m m' (told alert_id a summary first found) keyed = keyed
  Effect-IsKeyed m m' (remarked alert_id a summary confidence available first second found) keyed =
      keyed

  pub decision-IsKeyed :
      (m : AlertManager F T) (decision : InvestigatorDecision T) (now : T) (first second : Stamp T)
      → IsKeyed m.alerts
      → IsKeyed (apply_investigator_decision m decision now first second).0.alerts
  unfolding apply_investigator_decision validate_transition
  decision-IsKeyed m decision now first second keyed = decided (get decision.alert_id m.alerts) refl
    where
      decided :
          (found : Option (Alert F T))
          → get decision.alert_id m.alerts ≡ found
          → IsKeyed (decide_on m decision now first second found).0.alerts
      decided none e = keyed
      decided (some a) e =
          insert-IsKeyed _ decision.alert_id m.alerts (get-mem m.alerts decision.alert_id keyed e).1
            keyed

  Reachable-IsKeyed : {s : AppState F T} → Reachable s → IsKeyed s.manager.alerts
  Reachable-IsKeyed (start rules_engine rules_config auth) = tt
  Reachable-IsKeyed (next reached step) =
      step-keeps (λ m. IsKeyed m.alerts) Effect-IsKeyed decision-IsKeyed step
        (Reachable-IsKeyed reached)

  -- What `restored` has of `s`, and what it has not.
  pub record IsRestored (s fresh restored : AppState F T) : Type 0 where
    pub alerts : (id : Uuid) → alert_in restored.manager id ≡ alert_in s.manager id
    pub audit : restored.manager.audit ≡ s.manager.audit
    pub flags : restored.flagged_accounts ≡ fresh.flagged_accounts

  -- An application after the restoring of the alerts and the log that were loaded.
  abbrev pub restored_with : AppState F T → List (Alert F T) → List (AuditRecord F T) → AppState F T
  restored_with fresh alerts records =
      with_manager fresh
        (record { alerts = restore_all alerts fresh.manager.alerts; audit = records })

  module _ ⦃alerts_json : Serde (List (Alert F T))⦄
      ⦃audit_json : Serde (List (AuditRecord F T))⦄ where
    pub restore_on_startup-loaded :
        (fresh : AppState F T) (data_dir : String) (disk : Disk) (alerts : List (Alert F T))
        (records : List (AuditRecord F T))
        → load disk false (new_paths data_dir).alerts ≡ ok (some alerts)
        → load disk false (new_paths data_dir).audit ≡ ok (some records)
        → restore_on_startup fresh (new_paths data_dir) disk false false
          ≡ restored_with fresh alerts records
    unfolding restore_on_startup restore
    restore_on_startup-loaded fresh data_dir disk alerts records alerts_loaded audit_loaded =
        ap₂ (λ a b. restore_loaded_audit (restore_loaded_alerts fresh a) b) alerts_loaded
          audit_loaded

    -- Saving the log leaves the alerts that were saved before it.
    pub alerts-saved :
        (disk : Disk) (faults : Faults) (data_dir : String) (alerts : List (Alert F T))
        (records : List (AuditRecord F T))
        → RoundTrips alerts_json alerts
        → load
            (save
              (save disk no_faults (new_paths data_dir).alerts alerts).0
              faults
              (new_paths data_dir).audit
              records).0
            false
            (new_paths data_dir).alerts
          ≡ ok (some alerts)
    alerts-saved disk faults data_dir alerts records trip =
        load-saved _ (new_paths data_dir).alerts alerts trip (
          save-get once faults (new_paths data_dir).audit (new_paths data_dir).alerts records apart
            aside
          ∙ if-false ((new_paths data_dir).audit == (new_paths data_dir).alerts) _ _
              (and_false (data_dir == data_dir))
          ∙ saved-get disk (new_paths data_dir).alerts alerts trip)
      where
        once : Disk
        once = (save disk no_faults (new_paths data_dir).alerts alerts).0

        apart : (new_paths data_dir).audit ≢ tmp_path (new_paths data_dir).audit
        apart e = json_tmp (ap (λ p. p.extension) e)

        aside : (new_paths data_dir).alerts ≢ tmp_path (new_paths data_dir).audit
        aside e = json_tmp (ap (λ p. p.extension) e)

    -- The alerts come back as they were at the first read, and the log as it was at the second.
    pub snapshot-restored :
        ⦃chrono : Chrono T⦄
        → (s later fresh : AppState F T) (data_dir : String) (disk : Disk)
        → RoundTrips alerts_json (list s.manager)
        → RoundTrips audit_json later.manager.audit
        → restore_on_startup fresh
            (new_paths data_dir)
            (snapshot s later (new_paths data_dir) disk no_faults no_faults)
            false
            false
          ≡ restored_with fresh (list s.manager) later.manager.audit
    unfolding snapshot
    snapshot-restored s later fresh data_dir disk alerts_trip audit_trip =
        restore_on_startup-loaded fresh data_dir _ (list s.manager) later.manager.audit
          (alerts-saved disk no_faults data_dir (list s.manager) later.manager.audit alerts_trip)
          (load-saved _ (new_paths data_dir).audit later.manager.audit audit_trip
            (saved-get _ (new_paths data_dir).audit later.manager.audit audit_trip))

  module _ ⦃chrono : Chrono T⦄ ⦃alerts_json : Serde (List (Alert F T))⦄
      ⦃audit_json : Serde (List (AuditRecord F T))⦄ where
    -- A snapshot of a reachable state, taken without a fault and with no request between its two
    -- reads, and restored into an application that has just started, gives back the log and every
    -- alert under its identifier, and no other alert; the flagged accounts it leaves as they are,
    -- so those that were flagged before are lost. It is assumed that floats and instants form sets,
    -- that instants are totally ordered, and that the alerts and the log survive their
    -- serialization.
    pub restart-restores :
        IsSet F
        → IsSet T
        → IsTimeline T
        → {s : AppState F T} → Reachable s
        → (fresh : AppState F T) (data_dir : String) (disk : Disk) → fresh.manager ≡ new_manager
        → RoundTrips alerts_json (list s.manager)
        → RoundTrips audit_json s.manager.audit
        → IsRestored s fresh (
            restore_on_startup fresh
              (new_paths data_dir)
              (snapshot s s (new_paths data_dir) disk no_faults no_faults)
              false
              false)
    restart-restores float_set instant_set timeline {s} reached fresh data_dir disk empty
          alerts_trip audit_trip =
        subst (IsRestored s fresh)
          (sym (snapshot-restored s s fresh data_dir disk alerts_trip audit_trip))
          (record {
            alerts = λ id.
                ap (λ m. get id (restore_all (list s.manager) m.alerts)) empty
                ∙ restore_all-get float_set instant_set s.manager.alerts (list s.manager) id
                    (Reachable-IsKeyed reached) (list-IsNewestFirst timeline s.manager).0;
            audit = refl;
            flags = refl;
          })
