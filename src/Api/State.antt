-- ===== src/Api/State.antt =====
-- `AppState` of crates/api/src/state.rs. The manager holds the audit log that `AppState::audit` shares.
use stellartrace.Prelude.{
  ℕ, ◌-◌, Option, none, some, String, List, [], ◌∷◌, ◌++◌, nat_eq, string_eq, ◌==◌, length, drop,
  ltb, if◌then◌else◌,
}
use stellartrace.Prelude.HashMap.{HashMap, get, insert}
use stellartrace.Platform.{Uuid}
use stellartrace.Common.{NormalizedTransaction, AiRecommendation}
use stellartrace.Rules.{RulesEngine, RulesConfig}
use stellartrace.Alerts.{AlertManager, new_manager}
use stellartrace.Api.Metrics.{Metrics, default_metrics}
use stellartrace.Api.Auth.{AuthRegistry}
use mathlib.Core.Option

pub record AppState (F T : Type 0) : Type 0 where
  pub metrics : Metrics
  pub rules_engine : RulesEngine F T
  pub rules_config : RulesConfig F
  pub manager : AlertManager F T
  pub auth : AuthRegistry
  pub tx_history : HashMap String (List (NormalizedTransaction T))
  pub transactions : HashMap String (NormalizedTransaction T)
  pub flagged_accounts : List String
  pub ai_recommendations : HashMap Uuid (AiRecommendation F T)

abbrev pub max_history_per_account : ℕ
max_history_per_account = 500

module _ {F T : Type 0} where
  -- the state that main.rs builds, before any snapshot is restored
  abbrev pub initial : RulesEngine F T → RulesConfig F → AuthRegistry → AppState F T
  initial rules_engine rules_config auth = record {
    metrics = default_metrics;
    rules_engine = rules_engine;
    rules_config = rules_config;
    manager = new_manager;
    auth = auth;
    tx_history = [];
    transactions = [];
    flagged_accounts = [];
    ai_recommendations = [];
  }

  abbrev pub with_manager : AppState F T → AlertManager F T → AppState F T
  with_manager s manager = record {
    metrics = s.metrics;
    rules_engine = s.rules_engine;
    rules_config = s.rules_config;
    manager = manager;
    auth = s.auth;
    tx_history = s.tx_history;
    transactions = s.transactions;
    flagged_accounts = s.flagged_accounts;
    ai_recommendations = s.ai_recommendations;
  }

  abbrev pub with_metrics : AppState F T → Metrics → AppState F T
  with_metrics s metrics = record {
    metrics = metrics;
    rules_engine = s.rules_engine;
    rules_config = s.rules_config;
    manager = s.manager;
    auth = s.auth;
    tx_history = s.tx_history;
    transactions = s.transactions;
    flagged_accounts = s.flagged_accounts;
    ai_recommendations = s.ai_recommendations;
  }

  abbrev pub with_flagged : AppState F T → List String → AppState F T
  with_flagged s flagged_accounts = record {
    metrics = s.metrics;
    rules_engine = s.rules_engine;
    rules_config = s.rules_config;
    manager = s.manager;
    auth = s.auth;
    tx_history = s.tx_history;
    transactions = s.transactions;
    flagged_accounts = flagged_accounts;
    ai_recommendations = s.ai_recommendations;
  }

  abbrev pub with_recommendation : AppState F T → Uuid → AiRecommendation F T → AppState F T
  with_recommendation s alert_id recommendation = record {
    metrics = s.metrics;
    rules_engine = s.rules_engine;
    rules_config = s.rules_config;
    manager = s.manager;
    auth = s.auth;
    tx_history = s.tx_history;
    transactions = s.transactions;
    flagged_accounts = s.flagged_accounts;
    ai_recommendations = insert alert_id recommendation s.ai_recommendations;
  }

module _ {T : Type 0} where
  -- `entry(account).or_default()`
  abbrev pub entry_of :
      HashMap String (List (NormalizedTransaction T)) → String → List (NormalizedTransaction T)
  entry_of history account = Option.get_or (get account history) []

  -- `drain(0..excess)` if the entry has grown too long
  unfoldable pub bounded : List (NormalizedTransaction T) → List (NormalizedTransaction T)
  bounded entry =
      if ltb max_history_per_account (length entry)
      then drop (length entry - max_history_per_account) entry
      else entry

  unfoldable pub push_bounded :
      HashMap String (List (NormalizedTransaction T))
      → String
      → NormalizedTransaction T
      → HashMap String (List (NormalizedTransaction T))
  unfolding bounded
  push_bounded history account tx =
      insert account (bounded (entry_of history account ++ tx ∷ [])) history

  -- the destination's entry, unless it is the source's
  abbrev pub push_destination :
      HashMap String (List (NormalizedTransaction T))
      → NormalizedTransaction T
      → Option String
      → HashMap String (List (NormalizedTransaction T))
  push_destination history tx none = history
  push_destination history tx (some dest) =
      if dest == tx.source_account then history else push_bounded history dest tx

module _ {F T : Type 0} where
  unfoldable pub record_transaction : AppState F T → NormalizedTransaction T → AppState F T
  unfolding push_bounded
  record_transaction s tx = record {
    metrics = s.metrics;
    rules_engine = s.rules_engine;
    rules_config = s.rules_config;
    manager = s.manager;
    auth = s.auth;
    tx_history =
        push_destination (push_bounded s.tx_history tx.source_account tx) tx tx.destination_account;
    transactions = insert tx.tx_hash tx s.transactions;
    flagged_accounts = s.flagged_accounts;
    ai_recommendations = s.ai_recommendations;
  }

  unfoldable pub history_for : AppState F T → String → List (NormalizedTransaction T)
  history_for s account = entry_of s.tx_history account

  abbrev pub flagged_accounts_snapshot : AppState F T → List String
  flagged_accounts_snapshot s = s.flagged_accounts
