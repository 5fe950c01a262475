-- ===== src/Service.antt =====
-- pkg/bridge/service.go: the bridge runtime of a run, its start, its sessions and its stop.
pub mod State
pub mod Start
pub mod Stop
pub mod Closed
pub mod Down
pub mod Ready
pub mod Launched
pub mod Kept
mod Examples
