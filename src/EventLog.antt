-- ===== src/EventLog.antt =====
-- apps/core/src/event-log-rotation.ts: how the event log is kept bounded.
pub mod Rotation
pub mod Trimming
pub mod Keeping
pub mod Limits
mod Tests
