-- ===== src/Logger.antt =====
-- pkg/logger/slog_logger.go: the log methods, With, WithContext and WithCallerSkip.
pub mod Outcome
pub mod Stopped
mod Defs
unfoldable pub use Defs.*
