-- ===== src/Http.antt =====
-- pkg/logger/httpmw/middleware.go: request ids, the response recorder and the middleware.
pub mod Writer
pub mod Recording
pub mod Divergence
pub mod Requests
mod Defs
unfoldable pub use Defs.*
