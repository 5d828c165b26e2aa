-- ===== src/Schema.antt =====
-- JSON values, JSON schemas, and the passes over them in src/common/identity/utils.js.
pub mod Text
pub mod Value
pub mod Types
pub mod Reference
pub mod Documents
pub mod Meta
pub mod Files
mod Tests
