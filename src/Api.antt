-- ===== src/Api.antt =====
-- crates/api: the application's state and its handlers.
mod Metrics
mod Auth
mod Error
mod State
mod Evaluation
mod Review
mod Persistence
mod Startup
pub mod Router
pub mod History
pub mod Steps
pub mod Effects
pub mod Cases
pub mod Invariants
pub mod Evaluated
pub mod Authority
pub mod Flags
pub mod Lives
pub mod Lifetimes
pub mod Torn
pub mod Watched
pub mod Requests
pub mod Restart
pub mod Tokens
pub mod Advice
pub mod Kept
pub mod Served
pub mod Calm
pub mod Listing
pub mod Openings
pub mod Paths
pub mod Posted
pub mod Lifecycle
unfoldable pub use Metrics.*
unfoldable pub use Auth.*
pub use Error.*
unfoldable pub use State.*
unfoldable pub use Evaluation.*
unfoldable pub use Persistence.*
unfoldable pub use Review.*
unfoldable pub use Startup.*
