-- ===== src/Level.antt =====
-- pkg/logger/level.go and pkg/logger/handler/hook_handler.go: two gates before a handler.
pub mod Gates
mod Defs
unfoldable pub use Defs.*
