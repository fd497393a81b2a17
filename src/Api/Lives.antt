-- ===== src/Api/Lives.antt =====
-- Lives of the application across restarts: the handlers of crates/api/src/handlers.rs, and the
-- snapshots and the startup of crates/api/src/persistence.rs.
use stellartrace.Prelude.{
  Bool, true, Option, none, some, false, ◌≡◌, String, List, string_eq, nat_eq,
}
use stellartrace.Prelude.HashMap.{get}
use stellartrace.Platform.{Unicode, Float, Chrono}
use stellartrace.Common.{Alert}
use stellartrace.Audit.{AuditRecord, Hashing}
use stellartrace.Alerts.{get_alert as alert_in, list}
use stellartrace.Prelude.Outcome.{Result, ok, fail}
use stellartrace.Storage.{StorageError, Serde, Disk, no_faults}
use stellartrace.Api.Error.{UuidText}
use stellartrace.Api.State.{AppState}
use stellartrace.Rules.{ConfigFiles}
use stellartrace.Api.Startup.{Environment, startup}
use stellartrace.Storage.{load, path_eq}
use stellartrace.Api.Persistence.{new_paths, snapshot}
use stellartrace.Api.Router.{Request, Chance, UuidParse, serve}
use stellartrace.Api.Restart.{RoundTrips}

-- There is no snapshot yet, or none is asked for.
abbrev pub IsBlank : Option String → Disk → Type 0
IsBlank none disk = Unit {0}
IsBlank (some data_dir) disk =
    (get (new_paths data_dir).alerts disk ≡ none) × (get (new_paths data_dir).audit disk ≡ none)

-- A file gives what was saved, or nothing: it is missing, or it cannot be read.
abbrev pub IsReadAs : {A : Type 0} → A → Result (Option A) StorageError → Type 0
IsReadAs saved (ok (some read)) = read ≡ saved
IsReadAs saved (ok none) = Unit {0}
IsReadAs saved (fail e) = Unit {0}

module _ {F T : Type 0} ⦃f64 : Float F⦄ ⦃chrono : Chrono T⦄ ⦃hashing : Hashing F T⦄
    ⦃text : UuidText⦄ ⦃unicode : Unicode⦄ ⦃uuid : UuidParse⦄
    ⦃alerts_json : Serde (List (Alert F T))⦄ ⦃audit_json : Serde (List (AuditRecord F T))⦄ where
  -- The states of the application over its lives, after each request; a life may start in another
  -- environment than the one before. A life starts with nothing, or with the last snapshot of an
  -- earlier one, which may have gone on behind it, or with two files whose alerts and log are those of any two
  -- states, or are lost: a request came between the two reads, or a save failed and an older file or
  -- none stayed, or a file cannot be read. The lives are settled if this last case has not occurred.
  pub data Lived : Bool → AppState F T → Type 0 where
    started :
        (env : Environment) (files : ConfigFiles F) (disk : Disk)
        → IsBlank env.data_dir disk
        → Lived true (startup env files disk false false)
    served :
        {settled : Bool} {s : AppState F T}
        → Lived settled s
        → (request : Request T) (chance : Chance F T)
        → alert_in s.manager chance.draws.alert_id ≡ none
        → Lived settled (serve s request chance).0
    restarted :
        {settled : Bool} {s : AppState F T}
        → Lived settled s
        → (env : Environment) (files : ConfigFiles F) (data_dir : String) (disk : Disk)
        → env.data_dir ≡ some data_dir
        → RoundTrips alerts_json (list s.manager)
        → RoundTrips audit_json s.manager.audit
        → Lived settled (
            startup env files
              (snapshot s s (new_paths data_dir) disk no_faults no_faults)
              false
              false)
    mixed :
        {one other : Bool} {s s' : AppState F T}
        → Lived one s
        → Lived other s'
        → (env : Environment) (files : ConfigFiles F) (data_dir : String) (disk : Disk)
          (alerts_unreadable audit_unreadable : Bool)
        → env.data_dir ≡ some data_dir
        → IsReadAs (list s.manager) (load disk alerts_unreadable (new_paths data_dir).alerts)
        → IsReadAs s'.manager.audit (load disk audit_unreadable (new_paths data_dir).audit)
        → Lived false (startup env files disk alerts_unreadable audit_unreadable)
