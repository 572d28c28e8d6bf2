-- ===== src/Multi.antt =====
-- pkg/logger/handler/multi_handler.go: a handler that fans records out.
pub mod Delivery
mod Defs
unfoldable pub use Defs.*
