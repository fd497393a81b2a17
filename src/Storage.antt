-- ===== src/Storage.antt =====
-- crates/storage: snapshots in JSON files.
mod JsonFile
pub mod Atomic
unfoldable pub use JsonFile.*
