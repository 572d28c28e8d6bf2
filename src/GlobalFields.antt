-- ===== src/GlobalFields.antt =====
-- pkg/logger/handler/global_fields_handler.go: fields that are attached to every record.
pub mod Merge
pub mod Nesting
mod Defs
unfoldable pub use Defs.*
