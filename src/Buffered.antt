-- ===== src/Buffered.antt =====
-- pkg/logger/handler/buffered_handler.go: the shared core, its worker, Flush and Shutdown.
pub mod Steps
pub mod Invariant
pub mod Delivery
pub mod Drain
mod Defs
unfoldable pub use Defs.*
