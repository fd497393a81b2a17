-- ===== src/Audit.antt =====
-- crates/audit/src/lib.rs: the append-only log, its hash chain and its verification.
mod Log
mod Verify
pub mod Chain
pub mod Fault
pub mod Tamper
unfoldable pub use Log.*
unfoldable pub use Verify.*
