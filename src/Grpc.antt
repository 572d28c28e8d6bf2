-- ===== src/Grpc.antt =====
-- pkg/logger/grpc/interceptor.go: the interceptors of servers and clients.
pub mod Server
pub mod Client
pub mod Handled
pub mod Streams
pub mod Finalize
pub mod RequestId
mod Defs
unfoldable pub use Defs.*
