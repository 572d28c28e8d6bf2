-- ===== src/Sampling.antt =====
-- pkg/logger/handler/sampling_handler.go: configuration, the decision, the bounded key map.
pub mod Valid
pub mod Limits
pub mod Delivery
mod Defs
unfoldable pub use Defs.*
