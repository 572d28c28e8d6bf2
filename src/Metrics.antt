-- ===== src/Metrics.antt =====
-- pkg/logger/prometheus/handler.go: a counter of records by level.
mod Defs
pub mod Totals
unfoldable pub use Defs.*
