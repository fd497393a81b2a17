-- ===== src/Rules.antt =====
-- crates/rules_engine: thresholds, context, the ten rules and the engine that runs them.
mod Config
mod Context
mod Engine
mod Amounts
mod Activity
mod Accounts
mod Catalog
pub mod Determinism
pub mod Accuracy
pub mod Dormancy
pub mod Windows
unfoldable pub use Config.*
unfoldable pub use Context.*
unfoldable pub use Engine.*
unfoldable pub use Amounts.*
unfoldable pub use Activity.*
unfoldable pub use Accounts.*
unfoldable pub use Catalog.*
