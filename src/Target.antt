-- ===== src/Target.antt =====
-- pkg/bridge/target: the grant of one sandbox to a bridge.
pub mod Grant
pub mod Started
pub mod Exported
