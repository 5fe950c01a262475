-- ===== src/Audit.antt =====
-- pkg/bridge/internal/bridgekit/audit.go: the writer of tool-calls.jsonl and of the raw log.
pub mod State
pub mod Writer
pub mod Steps
pub mod Wake
pub mod Log
pub mod Complete
pub mod Budget
mod Examples
