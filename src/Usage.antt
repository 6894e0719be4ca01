-- ===== src/Usage.antt =====
-- Token accounting: packages/metrics-engine/src/index.ts with the registry of sources of
-- packages/event-schema/src/usage.ts. Counts are non-negative integers, as the schema demands.
pub mod Registry
pub mod Tokens
pub mod Overview
pub mod Canonical
pub mod Totals
pub mod Files
mod Tests
