-- ===== src/Api/Startup.antt =====
-- `main` of crates/api/src/main.rs up to the serving of requests: what the process makes of its
-- environment. The server's address and the logging are left out.
use stellartrace.Prelude.{Bool, Option, none, some, String, List}
use stellartrace.Prelude.Outcome.{Result, ok, fail}
use stellartrace.Platform.{Float, Chrono}
use stellartrace.Common.{Alert}
use stellartrace.Rules.{
  RulesConfig, default_config, ConfigFiles, ConfigError, load_from_file, with_default_rules,
}
use stellartrace.Audit.{AuditRecord}
use stellartrace.Advisor.{AiAdvisor, AiAdvisorError, fallback_advisor}
use stellartrace.Advisor.Claude.{
  ClaudeAdvisor, Provider, claude_investigate, from_env as claude_from_env,
}
use stellartrace.Storage.{Serde, Disk}
use stellartrace.Api.Auth.{from_env}
use stellartrace.Api.State.{AppState, initial}
use stellartrace.Api.Persistence.{new_paths, restore_on_startup}

-- The variables that the process reads, each if it is set and readable.
pub record Environment : Type 0 where
  pub anthropic_api_key : Option String
  pub rules_config : Option String
  pub api_tokens : Option String
  pub data_dir : Option String

module _ {F T : Type 0} ⦃f64 : Float F⦄ where
  -- the primary advisor of the service at an instant
  abbrev pub advisor_of : Provider F T → T → Result ClaudeAdvisor AiAdvisorError → AiAdvisor F T
  advisor_of provider now (ok claude) = claude_investigate claude provider now
  advisor_of provider now (fail e) = fallback_advisor now

  abbrev pub chosen_advisor : Environment → Provider F T → T → AiAdvisor F T
  chosen_advisor env provider now = advisor_of provider now (claude_from_env env.anthropic_api_key)

module _ {F : Type 0} ⦃f64 : Float F⦄ where
  -- A configuration that cannot be loaded is no obstacle: the defaults stand in.
  abbrev pub config_or_default : Result (RulesConfig F) ConfigError → RulesConfig F
  config_or_default (ok config) = config
  config_or_default (fail e) = default_config

  abbrev pub chosen_config : ConfigFiles F → Option String → RulesConfig F
  chosen_config files none = default_config
  chosen_config files (some path) = config_or_default (load_from_file files path)

module _ {F T : Type 0} ⦃f64 : Float F⦄ ⦃chrono : Chrono T⦄ where
  -- the state before any snapshot is restored
  abbrev pub fresh_state : Environment → ConfigFiles F → AppState F T
  fresh_state env files =
      initial with_default_rules (chosen_config files env.rules_config) (from_env env.api_tokens)

  module _ ⦃alerts_json : Serde (List (Alert F T))⦄
      ⦃audit_json : Serde (List (AuditRecord F T))⦄ where
    abbrev pub started_in : Option String → AppState F T → Disk → Bool → Bool → AppState F T
    started_in none s disk alerts_unreadable audit_unreadable = s
    started_in (some data_dir) s disk alerts_unreadable audit_unreadable =
        restore_on_startup s (new_paths data_dir) disk alerts_unreadable audit_unreadable

    -- the state that `main` hands to the router
    unfoldable pub startup : Environment → ConfigFiles F → Disk → Bool → Bool → AppState F T
    startup env files disk alerts_unreadable audit_unreadable =
        started_in env.data_dir (fresh_state env files) disk alerts_unreadable audit_unreadable
