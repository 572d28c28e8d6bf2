-- ===== src/Rate.antt =====
-- pkg/logger/rate.go: options, per-key limiters, the decision and the eviction.
pub mod Limiter
pub mod Valid
pub mod Tracks
pub mod Limits
pub mod Eviction
pub mod Trace
pub mod Options
mod Defs
unfoldable pub use Defs.*
