-- ===== src/Ingestion.antt =====
-- crates/ingestion: normalization of Horizon operations, the client that fetches them, and the pipeline
-- that polls for transactions.
mod Normalize
mod Pipeline
mod Horizon
pub mod Retry
pub mod Delivery
pub mod Refusal
pub mod Pages
pub mod Cursor
unfoldable pub use Normalize.*
unfoldable pub use Pipeline.*
unfoldable pub use Horizon.*
