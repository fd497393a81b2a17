-- ===== src/Alerts.antt =====
-- crates/alerts/src/lib.rs: the alert store and the only writer of an alert's status.
mod Manager
pub mod Decisions
pub mod Listing
pub mod Trail
pub mod Faithful
pub mod Keyed
pub mod Interleaved
unfoldable pub use Manager.*
