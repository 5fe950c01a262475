-- ===== src/Ssh.antt =====
-- pkg/bridge/ssh: what the SSH bridge accepts as a remote command.
pub mod Quote
pub mod Hermes
pub mod OpenClaw
mod Examples
