-- ===== src/Kitlogtest.antt =====
-- pkg/logger/kitlogtest: the doubles that the tests of consumers use, MockLogger and TestHandler.
mod Defs
pub mod Doubles
unfoldable pub use Defs.*
