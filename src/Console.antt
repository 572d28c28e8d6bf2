-- ===== src/Console.antt =====
-- pkg/logger/handler/console_handler.go: the rendering of a record as one line.
mod Defs
pub mod Newlines
pub mod Lines
pub mod Colors
unfoldable pub use Defs.*
