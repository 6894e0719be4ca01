-- ===== src/Desktop/Supervisor.antt =====
-- The supervisor of the child processes, apps/desktop/src/runtime/runtime-supervisor.ts.
mod Tests
pub mod State
pub mod Turns
pub mod Lifecycle
pub mod Quiet
pub mod Stopping
pub mod Sound
pub mod Keeping
pub mod Callbacks
pub mod Launching
pub mod Scheduling
pub mod Crashing
pub mod Restarting
