-- ===== src/Advisor.antt =====
-- crates/ai_advisor: what is sent to the advisor of an alert.
pub mod Context
pub mod Sanitize
pub mod Neutral
pub mod Rebuild
pub mod Markup
pub mod Clean
pub mod Ends
pub mod Panic
pub mod Service
pub mod Advice
pub mod Answer
pub mod Bounds
pub mod Claude
pub mod Extract
pub mod Model
unfoldable pub use Context.*
unfoldable pub use Sanitize.*
unfoldable pub use Service.*
