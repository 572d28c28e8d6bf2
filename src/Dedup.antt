-- ===== src/Dedup.antt =====
-- pkg/logger/handler/dedup_handler.go: the attribute tree and the decorator that builds it.
pub mod Unique
pub mod Clean
pub mod Pinned
mod Defs
unfoldable pub use Defs.*
