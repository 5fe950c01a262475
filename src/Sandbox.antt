-- ===== src/Sandbox.antt =====
-- pkg/sandbox: the checks on a request, and the life of a task's sandbox.
pub mod Path
pub mod Checks
pub mod Users
pub mod Request
pub mod State
pub mod Stop
pub mod Start
pub mod Held
pub mod Rollback
pub mod Leaks
pub mod Close
pub mod Shut
pub mod Transfer
pub mod Published
pub mod Downloads
pub mod Export
mod Saves
mod Examples
pub mod Canonical
