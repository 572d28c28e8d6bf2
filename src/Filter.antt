-- ===== src/Filter.antt =====
-- pkg/logger/handler/filter_handler.go: rules, matching, and the filtering decorator.
pub mod Matching
pub mod Secrets
pub mod Delivery
mod Defs
unfoldable pub use Defs.*
