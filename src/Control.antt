-- ===== src/Control.antt =====
-- pkg/bridge/control/server.go: the service that admits sandboxes to a run and releases them.
pub mod State
pub mod Entry
pub mod Calls
pub mod Steps
pub mod Valid
pub mod Moves
pub mod Reach
pub mod Onward
pub mod Once
pub mod Binding
pub mod Release
pub mod Progress
pub mod Close
mod Examples
