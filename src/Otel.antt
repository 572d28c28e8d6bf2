-- ===== src/Otel.antt =====
-- pkg/logger/otel/handler.go: the identifiers of a trace on the records of its context.
mod Defs
pub mod Correlation
unfoldable pub use Defs.*
