-- ===== src/Tests/Restart.antt =====
-- The theorems on snapshots at concrete inputs.
use stellartrace.Api.Router.{serve, matched}
use stellartrace.Platform.Samples.{lower_cases}
use stellartrace.Tests.Requests.{seven, submission, chance_of}
use mathlib.Core.Option
use stellartrace.Prelude.Order.{text_le}
use stellartrace.Rules.{
  ConfigFiles, load_from_file, repeated_transaction, abnormal_frequency,
  flagged_account_interaction, unusual_asset_movement, configurable_threshold,
  dormant_account_reactivation, round_trip_wash_trading, new_account_high_value_outflow,
  cross_asset_rapid_conversion,
}
use stellartrace.Prelude.{true, subst}
use stellartrace.Common.{medium}
use stellartrace.Prelude.Outcome.{fail}
use stellartrace.Api.{Environment, startup, fresh_state}
use stellartrace.Api.Steps.{Step, Reachable, start, next, ingest_evaluated}
use stellartrace.Tests.Samples.{payment, draws}
use mathlib.Core.List.{filter_map}
use stellartrace.Platform.{Bytes}
use stellartrace.Rules.{evaluate, large_transfer}
use stellartrace.Scoring.{compute_score, severity_for_score}
use stellartrace.Alerts.{create_alert}
use stellartrace.Common.{debug_status}
use stellartrace.Audit.{for_alert}
use stellartrace.Platform.Samples.{whole}
use stellartrace.Prelude.HashMap.{insert}
use stellartrace.Api.{
  ingest_and_evaluate, run_evaluation, record_transaction, history_for, AppState,
}
use stellartrace.Api.Lives.{Lived, started, served, restarted}
use stellartrace.Api.Lifetimes.{IsSound, Lived-IsSound}
use stellartrace.Api.Torn.{IsStopped, torn-unfaithful}
use stellartrace.Prelude.{
  nat_beq, string_eq, ◌∙◌, ℕ, ◌≡◌, ◌≢◌, refl, ap, Option, false, none, some, String, List, [], ◌∷◌,
  ◌==◌, if◌then◌else◌, nat_eq, Eq-set,
}
use stellartrace.Prelude.HashMap.{get}
use stellartrace.Common.{Alert}
use stellartrace.Platform.Samples.{lower_cases, fixed_point, milliseconds, milliseconds-IsTimeline}
use stellartrace.Audit.{AuditRecord}
use stellartrace.Alerts.{list, get_alert as alert_in}
use stellartrace.Alerts.Trail.{IsFaithful, trail, told, at, absent, replay}
use stellartrace.Storage.{load, io, Disk, Serde, FilePath, path_eq, Faults, save, tmp_path}
use stellartrace.Storage.Atomic.{save-get, contents_after}
use stellartrace.Api.{
  run_evaluation, ingest_and_evaluate, AppState, restore_on_startup, snapshot, new_paths,
}
use stellartrace.Api.Restart.{restart-restores, IsRestored}
use stellartrace.Storage.{no_faults}
use stellartrace.Tests.Samples.{parity, uuid_text}

abbrev environment : Environment
environment = record {
  anthropic_api_key = none;
  rules_config = some "rules.toml";
  api_tokens = none;
  data_dir = some "data";
}

abbrev no_files : ConfigFiles ℕ
no_files = record {
  read_to_string = λ path. fail "not found";
  from_toml = λ contents. fail "not read";
}

abbrev boot : AppState ℕ ℕ
boot = fresh_state environment no_files

abbrev busy : AppState ℕ ℕ
busy =
    (Option.get_or (ingest_and_evaluate boot payment draws)
      (boot, record { triggered_rules = []; anomaly_score = 0; severity = medium; alert = none })).0

-- Serializers that are right about the values of the example.
instance abbrev alerts_json : Serde (List (Alert ℕ ℕ))
alerts_json = record {
  to_vec_pretty = λ a. some (1 ∷ []);
  from_slice = λ b. some (list busy.manager);
}

-- the contents 3 are those of a log before any alert
abbrev logs : Bytes → Option (List (AuditRecord ℕ ℕ))
logs [] = none
logs (b ∷ bs) = some (if nat_beq b 3 then [] else busy.manager.audit)

instance abbrev audit_json : Serde (List (AuditRecord ℕ ℕ))
audit_json = record { to_vec_pretty = λ a. some (2 ∷ []); from_slice = logs }

-- a write that fails after one byte
abbrev torn : Faults
torn = record { create_dir_fails = false; write_fails = some (9 ∷ []); rename_fails = false }

booted : startup environment no_files [] false false ≡ boot
unfolding startup restore_on_startup load get
booted = refl

first_alert : Step boot busy
unfolding get ingest_and_evaluate run_evaluation evaluate compute_score large_transfer
    record_transaction history_for severity_for_score create_alert insert whole filter_map
    load_from_file repeated_transaction abnormal_frequency flagged_account_interaction
    unusual_asset_movement configurable_threshold dormant_account_reactivation
    round_trip_wash_trading new_account_high_value_outflow cross_asset_rapid_conversion text_le
first_alert = ingest_evaluated payment draws refl refl

no_seven : alert_in boot.manager 7 ≡ none
unfolding get load_from_file
no_seven = refl

served-busy : (serve boot submission (chance_of 7)).0 ≡ busy
unfolding serve matched get ingest_and_evaluate run_evaluation evaluate compute_score large_transfer
    record_transaction history_for severity_for_score create_alert insert whole filter_map
    load_from_file repeated_transaction abnormal_frequency flagged_account_interaction
    unusual_asset_movement configurable_threshold dormant_account_reactivation
    round_trip_wash_trading new_account_high_value_outflow cross_asset_rapid_conversion text_le
served-busy = refl

lived : Lived true busy
unfolding get
lived = subst (Lived true) served-busy (
    served (subst (Lived true) booted (started environment no_files [] (refl, refl))) submission
      (chance_of 7) no_seven)

reached : Reachable busy
reached = next (start _ _ _) first_alert

restart-restores_example : IsRestored busy boot (
    restore_on_startup boot
      (new_paths "data")
      (snapshot busy busy (new_paths "data") [] no_faults no_faults)
      false
      false)
restart-restores_example =
    restart-restores Eq-set Eq-set milliseconds-IsTimeline reached boot "data" [] refl
      (record { json = 1 ∷ []; written = refl; read = refl })
      (record { json = 2 ∷ []; written = refl; read = refl })

Lived-IsSound_example :
    IsSound {T = ℕ} true
      (startup environment no_files
        (snapshot busy busy (new_paths "data") [] no_faults no_faults)
        false
        false).manager
Lived-IsSound_example = Lived-IsSound Eq-set Eq-set milliseconds-IsTimeline (
    restarted lived environment no_files "data" [] refl
      (record { json = 1 ∷ []; written = refl; read = refl })
      (record { json = 2 ∷ []; written = refl; read = refl }))

abbrev old_disk : Disk
old_disk = ((new_paths "data").audit, 3 ∷ []) ∷ []

stops : IsStopped busy "data" old_disk torn []
unfolding load save get
stops = record { earlier = refl; failed = (io, refl) }

open_alert : told (alert_in busy.manager 7) ≡ at "Open"
unfolding get ingest_and_evaluate run_evaluation evaluate compute_score large_transfer
    record_transaction history_for severity_for_score create_alert insert whole filter_map
    load_from_file repeated_transaction abnormal_frequency flagged_account_interaction
    unusual_asset_movement configurable_threshold dormant_account_reactivation
    round_trip_wash_trading new_account_high_value_outflow cross_asset_rapid_conversion text_le
    debug_status
open_alert = refl

untold : trail {F = ℕ} {T = ℕ} [] 7 ≢ told (alert_in busy.manager 7)
unfolding replay for_alert
untold e = absent_apart (e ∙ open_alert)
  where
    absent_apart : absent ≢ at "Open"
    absent_apart e = cc

torn-unfaithful_example :
    ¬ IsFaithful {T = ℕ}
      (startup environment no_files
        (snapshot busy busy (new_paths "data") old_disk no_faults torn)
        false
        false).manager
torn-unfaithful_example =
    torn-unfaithful Eq-set Eq-set milliseconds-IsTimeline lived environment no_files "data" old_disk
      torn [] refl (record { json = 1 ∷ []; written = refl; read = refl }) stops 7 untold

abbrev first : List ℕ → Option ℕ
first [] = none
first (n ∷ ns) = some n

-- One number as one byte.
instance abbrev byte_json : Serde ℕ
byte_json = record { to_vec_pretty = λ n. some (n ∷ []); from_slice = first }

abbrev report : FilePath
report = record { parent = "data"; stem = "report"; extension = "json" }

json_tmp : ◌≢◌ {A = String} "json" "json.tmp"
json_tmp e = cc

report_tmp : report ≢ tmp_path report
report_tmp e = json_tmp (ap (λ p. p.extension) e)

save-get_example : get report (save {A = ℕ} ((report, 1 ∷ []) ∷ []) torn report 5).0 ≡ (
    if report == report
    then contents_after
        (save {A = ℕ} ((report, 1 ∷ []) ∷ []) torn report 5).1
        (get report ((report, 1 ∷ []) ∷ []))
        (some (5 ∷ []))
    else get report ((report, 1 ∷ []) ∷ []))
save-get_example = save-get ((report, 1 ∷ []) ∷ []) torn report report 5 report_tmp report_tmp
