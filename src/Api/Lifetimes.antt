-- ===== src/Api/Lifetimes.antt =====
-- What holds over the lives of the application across restarts: the handlers of crates/api/src/handlers.rs, and the
-- snapshots and the startup of crates/api/src/persistence.rs.
use stellartrace.Prelude.{
  inr, inl, ap₂, Bool, true, Option, none, some, false, ◌≡◌, refl, sym, ap, ◌∙◌, subst, String,
  List, [], ◌∷◌, string_eq, nat_eq,
}
use stellartrace.Prelude.HashMap.{HashMap, insert}
use stellartrace.Platform.{Unicode, Float, Chrono, IsTimeline, Uuid}
use stellartrace.Common.{Alert}
use stellartrace.Audit.{restore, AuditRecord, Hashing, intact, verify_integrity, verify_from}
use stellartrace.Alerts.{AlertManager, list, restore_all}
use stellartrace.Alerts.Keyed.{IsKeyed, insert-IsKeyed, restore_all-get}
use stellartrace.Alerts.Listing.{list-IsNewestFirst}
use stellartrace.Alerts.Decisions.{decision-intact}
use stellartrace.Alerts.Trail.{IsFaithful, told}
use stellartrace.Alerts.Faithful.{decision-IsFaithful, new_manager-IsFaithful}
use stellartrace.Prelude.Outcome.{Result, ok, fail}
use stellartrace.Storage.{StorageError, Serde, Disk}
use stellartrace.Api.Error.{UuidText}
use stellartrace.Api.State.{AppState}
use stellartrace.Rules.{ConfigFiles}
use stellartrace.Api.Startup.{Environment, startup, started_in, fresh_state}
use stellartrace.Storage.{load, load_from, path_eq}
use stellartrace.Api.Persistence.{
  restore_loaded_alerts, restore_loaded_audit, new_paths, restore_on_startup,
}
use stellartrace.Api.Router.{UuidParse}
use stellartrace.Api.Requests.{serve-Step}
use stellartrace.Api.Steps.{Step}
use stellartrace.Api.Invariants.{step-keeps, Effect-IsFaithful, Effect-intact}
use stellartrace.Api.Restart.{snapshot-restored, Effect-IsKeyed, decision-IsKeyed}
use stellartrace.Api.Lives.{IsBlank, IsReadAs, Lived, started, served, restarted, mixed}

module _ {F T : Type 0} ⦃f64 : Float F⦄ ⦃chrono : Chrono T⦄ ⦃hashing : Hashing F T⦄
    ⦃text : UuidText⦄ ⦃unicode : Unicode⦄ ⦃uuid : UuidParse⦄
    ⦃alerts_json : Serde (List (Alert F T))⦄ ⦃audit_json : Serde (List (AuditRecord F T))⦄ where
  blank-start :
      (data_dir : Option String) (s : AppState F T) (disk : Disk)
      → IsBlank data_dir disk
      → started_in data_dir s disk false false ≡ s
  unfolding restore_on_startup load
  blank-start none s disk blank = refl
  blank-start (some data_dir) s disk (no_alerts, no_audit) =
      ap₂
        (λ a b.
          restore_loaded_audit (restore_loaded_alerts s (load_from false a)) (load_from false b))
        no_alerts no_audit

  pub startup-restore :
      (env : Environment) (files : ConfigFiles F) (data_dir : String) (disk : Disk)
      → env.data_dir ≡ some data_dir
      → startup {T = T} env files disk false false
        ≡ restore_on_startup (fresh_state env files) (new_paths data_dir) disk false false
  unfolding startup
  startup-restore env files data_dir disk set =
      ap (λ d. started_in d (fresh_state env files) disk false false) set

  -- Only settled lives owe a log that agrees with the alerts.
  abbrev pub IsFaithfulIf : Bool → AlertManager F T → Type 0
  IsFaithfulIf true m = IsFaithful m
  IsFaithfulIf false m = Unit {0}

  -- What lives owe to their alerts and their log.
  pub record IsSound (settled : Bool) (m : AlertManager F T) : Type 0 where
    pub keyed : IsKeyed m.alerts
    pub verified : verify_integrity m.audit ≡ intact
    pub faithful : IsFaithfulIf settled m

  IsFaithfulIf-map :
      (settled : Bool) (m m' : AlertManager F T)
      → (IsFaithful m → IsFaithful m')
      → IsFaithfulIf settled m
      → IsFaithfulIf settled m'
  IsFaithfulIf-map true m m' f faithful = f faithful
  IsFaithfulIf-map false m m' f faithful = tt

  restore_all-IsKeyed :
      (alerts : List (Alert F T)) (store : HashMap Uuid (Alert F T))
      → IsKeyed store
      → IsKeyed (restore_all alerts store)
  unfolding restore_all
  restore_all-IsKeyed [] store keyed = keyed
  restore_all-IsKeyed (a ∷ alerts) store keyed =
      restore_all-IsKeyed alerts (insert a.alert_id a store)
        (insert-IsKeyed a a.alert_id store refl keyed)

  step-IsSound :
      (settled : Bool) {s s' : AppState F T}
      → Step s s'
      → IsSound settled s.manager
      → IsSound settled s'.manager
  step-IsSound settled step =
      step-keeps (IsSound settled)
        (λ m m' effect sound. record {
          keyed = Effect-IsKeyed m m' effect sound.keyed;
          verified = Effect-intact m m' effect sound.verified;
          faithful = IsFaithfulIf-map settled _ _ (Effect-IsFaithful m m' effect) sound.faithful;
        })
        (λ m decision now first second sound. record {
          keyed = decision-IsKeyed m decision now first second sound.keyed;
          verified = decision-intact m decision now first second sound.verified;
          faithful =
              IsFaithfulIf-map settled _ _ (decision-IsFaithful m decision now first second)
                sound.faithful;
        })
        step

  restored-IsSound :
      (settled : Bool)
      → IsSet F
      → IsSet T
      → IsTimeline T
      → (m : AlertManager F T) → IsSound settled m
      → IsSound settled (record { alerts = restore_all (list m) []; audit = m.audit })
  restored-IsSound settled float_set instant_set timeline m sound = record {
    keyed = restore_all-IsKeyed (list m) [] tt;
    verified = sound.verified;
    faithful =
        IsFaithfulIf-map settled _ _
          (λ faithful id.
            faithful id
            ∙ ap told (
                sym (
                  restore_all-get float_set instant_set m.alerts (list m) id sound.keyed
                    (list-IsNewestFirst timeline m).0)))
          sound.faithful;
  }

  fresh-IsSound :
      (env : Environment) (files : ConfigFiles F) → IsSound true (fresh_state env files).manager
  unfolding verify_integrity verify_from
  fresh-IsSound env files = record {
    keyed = tt;
    verified = refl;
    faithful = new_manager-IsFaithful F T;
  }

  -- Whatever alerts are loaded into a fresh state, its store is keyed and its log is empty.
  loaded-alerts :
      (env : Environment) (files : ConfigFiles F)
      (alerts : Result (Option (List (Alert F T))) StorageError)
      → IsSound false (restore_loaded_alerts (fresh_state env files) alerts).manager
  unfolding verify_integrity verify_from
  loaded-alerts env files (ok (some saved)) = record {
    keyed = restore_all-IsKeyed saved [] tt;
    verified = refl;
    faithful = tt;
  }
  loaded-alerts env files (ok none) = record { keyed = tt; verified = refl; faithful = tt }
  loaded-alerts env files (fail e) = record { keyed = tt; verified = refl; faithful = tt }

  -- A log that is loaded verifies if that which was saved does.
  loaded-audit :
      (s : AppState F T) (saved : List (AuditRecord F T))
      (records : Result (Option (List (AuditRecord F T))) StorageError)
      → IsReadAs saved records
      → verify_integrity saved ≡ intact
      → IsSound false s.manager
      → IsSound false (restore_loaded_audit s records).manager
  unfolding restore
  loaded-audit s saved (ok (some read)) same verified sound = record {
    keyed = sound.keyed;
    verified = ap verify_integrity same ∙ verified;
    faithful = tt;
  }
  loaded-audit s saved (ok none) same verified sound = sound
  loaded-audit s saved (fail e) same verified sound = sound

  -- Over all lives of the application, in any environment and after any requests, each life started
  -- with nothing, from a snapshot, or from two files of which each holds what was saved in some earlier
  -- state, or is missing or unreadable, the store is keyed by the identifiers of its alerts and the log
  -- verifies. If no life has started from two such files, so that every snapshot was saved without a
  -- fault and with no request between its two reads, then the log also tells of each alert exactly the
  -- status that it has, reached by changes that each start where the last one ended, and tells nothing
  -- of identifiers without an alert. It is assumed that identifiers of new alerts are new, that a
  -- snapshot is read as it was saved, that floats and instants form sets, and that instants are totally
  -- ordered.
  pub Lived-IsSound :
      IsSet F
      → IsSet T
      → IsTimeline T
      → {settled : Bool} {s : AppState F T} → Lived settled s
      → IsSound settled s.manager
  unfolding startup restore_on_startup
  Lived-IsSound float_set instant_set timeline (started env files disk blank) =
      subst (λ s. IsSound true s.manager)
        (sym (blank-start env.data_dir (fresh_state env files) disk blank))
        (fresh-IsSound env files)
  Lived-IsSound float_set instant_set timeline (served {settled} {s} lived request chance fresh) =
      elim (serve-Step s request chance fresh) [
        | inl idle ↦
            subst (λ s. IsSound settled s.manager) (sym idle)
              (Lived-IsSound float_set instant_set timeline lived)
        | inr step ↦ step-IsSound settled step (Lived-IsSound float_set instant_set timeline lived)
      ]
  Lived-IsSound float_set instant_set timeline
        (restarted {settled} {s} lived env files data_dir disk set alerts_trip audit_trip) =
      subst (λ s. IsSound settled s.manager)
        (sym (
          startup-restore env files data_dir _ set
          ∙ snapshot-restored s s (fresh_state env files) data_dir disk alerts_trip audit_trip))
        (restored-IsSound settled float_set instant_set timeline s.manager
          (Lived-IsSound float_set instant_set timeline lived))
  Lived-IsSound float_set instant_set timeline
        (mixed {s = s} {s' = s'} lived other env files data_dir disk alerts_unreadable
          audit_unreadable set from_alerts from_records) =
      subst (λ s. IsSound false s.manager)
        (sym (
          ap
            (λ d.
              started_in d (fresh_state {T = T} env files) disk alerts_unreadable audit_unreadable)
            set))
        (loaded-audit _ s'.manager.audit (load disk audit_unreadable (new_paths data_dir).audit)
          from_records (Lived-IsSound float_set instant_set timeline other).verified
          (loaded-alerts env files (load disk alerts_unreadable (new_paths data_dir).alerts)))
