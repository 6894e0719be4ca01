-- ===== src/Ingest.antt =====
-- The event log on its way into the database: apps/core/src/raw-ingest.ts, raw-primitives.ts and
-- event-log-projector.ts.
mod Tests
pub mod Files
pub mod Reader
pub mod Feeding
pub mod Chunks
pub mod Tiling
pub mod Window
pub mod Appending
pub mod Resuming
pub mod Continuing
pub mod Growth
pub mod Projector
pub mod Malformed
pub mod Accounting
pub mod Ingesting
pub mod Synchronizer
pub mod Advancing
pub mod Progress
pub mod Draining
pub mod Catching
