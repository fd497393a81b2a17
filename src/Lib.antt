-- ===== src/Lib.antt =====
-- StellarTrace watches transactions of the Stellar network: rules look at each transaction and the
-- history of its account, the triggers are scored, an alert is created, an AI advisor may comment on
-- it, and only a human investigator decides on it. Every event goes into a hash-chained audit log.
--
-- Parts, files and code:
--   * Common: crates/common/src/lib.rs, the data that all crates share.
--   * Rules: crates/rules_engine/src. Engine is the trait `Rule` and `RulesEngine`, Context and Config
--     are context.rs and config.rs, Amounts, Activity and Accounts hold the ten rules of rules.rs, each
--     one a function of its name, and Catalog is `default_rule_set`.
--   * Scoring: crates/scoring/src/lib.rs.
--   * Audit: crates/audit/src/lib.rs. The log is the list of its records; Log holds the operations,
--     Verify the verification.
--   * Alerts: crates/alerts/src/lib.rs. `AlertManager` is the map of alerts with the log that it shares
--     with the application.
--   * Advisor: crates/ai_advisor/src. Context, Sanitize, Service and Claude are context.rs,
--     sanitize.rs, lib.rs and claude.rs; the other modules prove what they make of an answer.
--   * Api: crates/api/src. Metrics, Auth, Error and State are the files of those names; Evaluation and
--     Review are handlers.rs. A handler takes the state and the request, and returns the new state and
--     the response. Router is `build_router` of lib.rs: `serve` takes a request, which may be malformed
--     or forbidden, to its handler. Steps is the relation of the handlers that change the state.
--   * Storage: crates/storage/src/json_file.rs. Persistence of Api is persistence.rs, which
--     uses it, and Startup is main.rs; Lives and Lifetimes follow the application across restarts,
--     Lifecycle over sequences of requests.
--   * Ingestion: crates/ingestion/src. Normalize, Horizon and Pipeline are
--     normalize.rs, horizon.rs and pipeline.rs.
--   * Registry: contracts/flagged_accounts/src/lib.rs.
--   * Prelude and Platform: shared helpers; the interfaces of `f64` and chrono with the laws that some
--     theorems ask for. Tests: every theorem at a concrete input.
--
-- The handlers call `evaluate` of Rules, `compute_score` of Scoring, and `create_alert` and
-- `apply_investigator_decision` of Alerts, which append to the log of Audit.
--
-- How the code is read. A handler is one step on the state, as if requests were handled one after
-- another. Each operation of the log and each lookup of the store holds its lock, but a handler and
-- `apply_investigator_decision` take several locks in turn, and interleavings of two of them are not
-- modelled, except for two decisions in Alerts/Interleaved. The background task of the periodic
-- snapshot reads the alerts, saves them, and then reads the log; requests may be served in between,
-- so `snapshot` takes the two states that it reads, and Lives tells lives of snapshots that read
-- one state from lives that start from files of two. The history of an account is kept and handed to
-- the rules oldest first. Identifiers and instants that the code draws are arguments. A `HashMap` is
-- an association list, whose order is the order in which the map iterates; a `Uuid` is a number;
-- `f64` and `DateTime<Utc>` are parameters with the operations that the code uses, and so are
-- SHA-256, hex and serde_json. A panic of the score's comparison is `none`. `AtomicU64` wraps around
-- at 2^64. The history bound of 500 is the code's. The disk is a map from paths to contents, and
-- which of its calls fail is an argument. The retry loop of the ingestion runs on fuel, of which
-- `max_attempts + 1` is enough; the polling loop, which has no end, is followed turn by turn. Every
-- other loop is structural.
--
-- Texts of the advisor are walked character by character, with byte positions as `str` counts them.
-- A slice outside of the text or inside a character panics, which is `panicked` of `Run`; the loop of
-- the sanitizer runs on fuel, one more than the characters of the text, and `unfinished`, the end
-- without fuel, never occurs. Lower case is a parameter, of which theorems ask what Unicode says of
-- ASCII texts and of one capital.
--
-- Not modelled: the HTTP clients, what axum parses and prints, serialization, tracing,
-- and the listener of main.rs.
pub mod Prelude
pub mod Platform
pub mod Common
pub mod Rules
pub mod Scoring
pub mod Audit
pub mod Alerts
pub mod Advisor
pub mod Storage
pub mod Api
pub mod Registry
pub mod Ingestion
pub mod Tests
