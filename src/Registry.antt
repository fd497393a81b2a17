-- ===== src/Registry.antt =====
-- contracts/flagged_accounts/src/lib.rs: the on-chain registry of flagged accounts.
mod Contract
pub mod Access
unfoldable pub use Contract.*
