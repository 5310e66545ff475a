-- ===== src/Tests.antt =====
-- Concrete parameters, tests and examples.
pub mod Codec
pub mod Files
pub mod Store
pub mod Parts
pub mod Runs
pub mod Queries
pub mod Compact
pub mod Capi
pub mod Server
