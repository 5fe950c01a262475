-- ===== src/Core.antt =====
-- pkg/core: the benchmark-independent types that the components exchange, and Go's errors.
pub mod Errors
pub mod Types
pub mod RuntimeName
