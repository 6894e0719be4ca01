-- ===== src/Sync/Types.antt =====
-- apps/core/src/sync-types.ts. A timestamp is the millisecond that its ISO text denotes; `null` is
-- `none`. The adapter's `sync` and the abort signal are events of the coordinator's model.
use agent_metrics.Prelude.{ℕ, String, Bool, List, Option}

pub data SyncAdapterStatus : Type 0 where
  idle queued syncing ready stale error disabled : SyncAdapterStatus

pub data SyncRunStatus : Type 0 where
  queued syncing succeeded failed aborted : SyncRunStatus

-- `sync_callable` is `typeof adapter.sync === "function"`.
pub record SyncAdapter : Type 0 where
  pub adapter_instance_id : String
  pub source_instance_id : String
  pub source_adapter : String
  pub source_vendor : String
  pub enabled : Bool
  pub sync_callable : Bool

pub record SyncResult : Type 0 where
  pub discovered_records : ℕ
  pub committed_unique_events : ℕ
  pub projected_unique_events : ℕ
  pub projection_watermark : ℕ

pub record SyncError : Type 0 where
  pub code : String
  pub summary : String

pub record SyncAdapterState : Type 0 where
  pub adapter_instance_id : String
  pub source_instance_id : String
  pub source_adapter : String
  pub source_vendor : String
  pub status : SyncAdapterStatus
  pub active_run_id : Option String
  pub pending_run_id : Option String
  pub last_started_at : Option ℕ
  pub last_completed_at : Option ℕ
  pub last_successful_at : Option ℕ
  pub next_scheduled_at : Option ℕ
  pub last_error : Option SyncError
  pub consecutive_failures : ℕ

pub record SyncRun : Type 0 where
  pub run_id : String
  pub adapter_instance_id : String
  pub status : SyncRunStatus
  pub accepted_at : ℕ
  pub started_at : Option ℕ
  pub completed_at : Option ℕ
  pub discovered_records : ℕ
  pub committed_unique_events : ℕ
  pub projected_unique_events : ℕ
  pub projection_watermark : Option ℕ
  pub error : Option SyncError

pub record SyncStatusSnapshot : Type 0 where
  pub generated_at : ℕ
  pub shutting_down : Bool
  pub adapters : List SyncAdapterState

pub data SyncTriggerDisposition : Type 0 where
  started queued coalesced : SyncTriggerDisposition

pub record SyncTriggerResult : Type 0 where
  pub adapter_instance_id : String
  pub run_id : String
  pub disposition : SyncTriggerDisposition

pub record ManualSyncResponse : Type 0 where
  pub request_id : String
  pub accepted_at : ℕ
  pub runs : List SyncTriggerResult
