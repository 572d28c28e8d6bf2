-- ===== src/Lifecycle.antt =====
-- pkg/logger/lifecycle.go: discovery of the handlers to flush, and the shared shutdown.
pub mod Discovery
pub mod Calls
pub mod Steps
pub mod Shutdown
pub mod Closed
mod Defs
unfoldable pub use Defs.*
