-- ===== src/Rules/Config.antt =====
-- crates/rules_engine/src/config.rs: the thresholds, and reading them from a file. `custom_thresholds` is a `HashMap`, so the
-- order of its list is the arbitrary order in which the map iterates.
use stellartrace.Prelude.{ℕ, ◌*◌, String, []}
use stellartrace.Prelude.Outcome.{Result, ok, fail}
use stellartrace.Prelude.HashMap.{HashMap}
use stellartrace.Prelude.Int.{ℤ, pos}
use stellartrace.Platform.{Float}

pub record RulesConfig (F : Type 0) : Type 0 where
  pub large_transfer_threshold : F
  pub repeated_tx_window_secs : ℤ
  pub repeated_tx_count_threshold : ℕ
  pub frequency_window_secs : ℤ
  pub frequency_count_threshold : ℕ
  pub unusual_asset_movement_multiplier : F
  pub unusual_asset_min_history : ℕ
  pub custom_thresholds : HashMap String F
  pub dormant_reactivation_gap_secs : ℤ
  pub dormant_reactivation_min_amount : F
  pub wash_trading_window_secs : ℤ
  pub new_account_history_threshold : ℕ
  pub new_account_outflow_threshold : F
  pub cross_asset_conversion_window_secs : ℤ
  pub cross_asset_conversion_count_threshold : ℕ

-- `RulesConfig::default`
abbrev pub default_config : {F : Type 0} ⦃f64 : Float F⦄ → RulesConfig F
default_config ⦃f64⦄ = record {
  large_transfer_threshold = f64.of_nat 10_000;
  repeated_tx_window_secs = pos 60;
  repeated_tx_count_threshold = 3;
  frequency_window_secs = pos 300;
  frequency_count_threshold = 10;
  unusual_asset_movement_multiplier = f64.of_nat 5;
  unusual_asset_min_history = 3;
  custom_thresholds = [];
  dormant_reactivation_gap_secs = pos (30 * 24 * 60 * 60);
  dormant_reactivation_min_amount = f64.of_nat 1_000;
  wash_trading_window_secs = pos 3_600;
  new_account_history_threshold = 2;
  new_account_outflow_threshold = f64.of_nat 5_000;
  cross_asset_conversion_window_secs = pos 600;
  cross_asset_conversion_count_threshold = 3;
}

pub data ConfigError : Type 0 where
  io_error parse_error : String → ConfigError

-- `std::fs::read_to_string` and `toml::from_str`, which may fail with an error's text
pub record ConfigFiles (F : Type 0) : Type 0 where
  pub read_to_string : String → Result String String
  pub from_toml : String → Result (RulesConfig F) String

abbrev pub config_parsed :
    {F : Type 0} → Result (RulesConfig F) String → Result (RulesConfig F) ConfigError
config_parsed (fail e) = fail (parse_error e)
config_parsed (ok config) = ok config

abbrev pub config_read :
    {F : Type 0} → ConfigFiles F → Result String String → Result (RulesConfig F) ConfigError
config_read files (fail e) = fail (io_error e)
config_read files (ok contents) = config_parsed (files.from_toml contents)

unfoldable pub load_from_file :
    {F : Type 0} → ConfigFiles F → String → Result (RulesConfig F) ConfigError
load_from_file files path = config_read files (files.read_to_string path)
