-- ===== src/Database.antt =====
-- The state that the services share, and the form of a handler.
pub mod Schema
pub mod Actions
pub mod Invariant
pub mod Keeps
pub mod Atomic
pub mod Returned
unfoldable pub use Schema.*
unfoldable pub use Actions.*
