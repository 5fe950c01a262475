-- ===== src/Session.antt =====
-- pkg/bridge/session.go: the Stop of a task's bridge session.
pub mod Admission
pub mod Start
pub mod Address
pub mod Opened
pub mod Admitted
pub mod Stop
pub mod Closed
pub mod Collected
pub mod Evidence
mod Registration
mod Examples
