-- ===== src/Config.antt =====
-- Configuration and assembly: pkg/logger/config_types.go and pkg/logger/config.go.
mod Types
mod Defs
mod Assembly
pub mod Names
pub mod Order
pub mod Presence
pub mod Lifetime
pub mod Problems
unfoldable pub use Types.*
unfoldable pub use Defs.*
unfoldable pub use Assembly.*
