-- ===== src/Runner.antt =====
-- pkg/runner: one run over the tasks of a benchmark.
pub mod Roles
pub mod Options
pub mod TaskRun
pub mod Finish
pub mod Stages
pub mod Ledger
pub mod Cleanup
pub mod Gate
pub mod Success
pub mod Identity
pub mod Loop
pub mod Outcome
pub mod Summary
pub mod Reports
mod Samples
mod Examples
