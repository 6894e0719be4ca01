-- ===== src/Shared.antt =====
-- packages/shared-utils/src: what the adapters share.
pub mod Diff
pub mod Subsequence
pub mod Minimal
pub mod Ledger
pub mod Reconciling
pub mod Fallback
mod Tests
