-- ===== src/Global.antt =====
-- The process-wide logger of pkg/logger/config.go: SetGlobal and the lazy default of L.
mod Defs
pub mod Steps
pub mod Invariant
pub mod Default
unfoldable pub use Defs.*
