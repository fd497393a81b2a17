-- ===== src/Common.antt =====
-- crates/common/src/lib.rs: the domain types. `F` is `f64` and `T` is `DateTime<Utc>`. The `Debug`
-- and `Display` texts are those that the other crates put into records.
mod Types
unfoldable pub use Types.*
