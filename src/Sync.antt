-- ===== src/Sync.antt =====
-- The synchronisation of sources in apps/core.
pub mod Types
pub mod Summary
pub mod Utils
pub mod Checks
pub mod Restoring
mod Tests
pub mod Store
pub mod Coordinator
