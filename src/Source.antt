-- ===== src/Source.antt =====
-- pkg/logger/handler/source_handler.go and component_handler.go: call-site attribution.
pub mod Names
mod Defs
unfoldable pub use Defs.*
