-- ===== src/Ownership.antt =====
-- pkg/harness/internal/runtime/ownership.go: the stop attempts of a harness runtime.
pub mod Stop
pub mod Attempts
pub mod Begins
pub mod Spec
pub mod Refines
mod Examples
