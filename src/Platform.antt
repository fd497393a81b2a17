-- ===== src/Platform.antt =====
-- What the program uses of `f64` and of the crate chrono, as interfaces that the model takes as
-- instance arguments, and the laws that theorems may ask of them.
mod Interface
mod Laws
pub mod Samples
pub use Interface.*
pub use Laws.*
