-- ===== src/Sync/Coordinator.antt =====
-- The state of `SyncCoordinator` (apps/core/src/sync-coordinator.ts) and its private helpers. The
-- children hold the start and the end of a run, the public methods and the proofs.
pub mod Runs
pub mod Completion
pub mod Registration
pub mod Methods
pub mod Creation
pub mod Maintenance
pub mod Invariant
pub mod Starting
pub mod Draining
pub mod Ending
pub mod Settling
pub mod Accepting
pub mod Triggering
pub mod Maintaining
pub mod Closing
pub mod Events
pub mod Guarantees
pub mod Closed
pub mod Outcomes
pub mod Timing
pub mod Answering
mod Tests
use agent_metrics.Prelude.{
  ℕ, ◌+◌, String, Bool, true, false, Option, none, some, List, ltb, if◌then◌else◌,
}
use agent_metrics.Prelude.Maps.{JsMap, has, put, for_each}
use agent_metrics.Sync.Types.{
  SyncAdapter, SyncAdapterState, SyncAdapterStatus, SyncRun, SyncRunStatus,
}
use agent_metrics.Sync.Utils.{StateSnapshot}
use agent_metrics.Sync.Store.{save}

-- The private constants of an instance, and what it takes from outside: the clock (the millisecond
-- of the n-th reading) and the factories of ids (given how often they were called before).
pub record Config : Type 0 where
  pub concurrency : ℕ
  pub freshness_ms : ℕ
  pub run_retention_ms : ℕ
  pub periodic_interval_ms : ℕ
  pub clock : ℕ → ℕ
  pub run_id_factory : String → ℕ → ℕ → String
  pub request_id_factory : ℕ → String

-- `aborted` is `controller.signal.aborted`.
pub record InternalRun : Type 0 where
  pub run : SyncRun
  pub aborted : Bool
  pub restore : StateSnapshot

-- `interval` and the adapters of `startPeriodicSync`, `none` for all of them.
pub record PeriodicTimer : Type 0 where
  pub interval : ℕ
  pub targets : Option (List String)

pub record Coordinator : Type 0 where
  pub adapters : JsMap SyncAdapter
  pub states : JsMap SyncAdapterState
  pub runs : JsMap InternalRun
  pub queued_run_ids : List String
  pub active_run_ids : List String
  pub persistence : Option (JsMap SyncRun)
  pub persisted_runs : JsMap SyncRun
  pub periodic_timer : Option PeriodicTimer
  pub shutting_down : Bool
  pub clock_reads : ℕ
  pub run_calls : ℕ
  pub request_calls : ℕ

abbrev pub is_queued : SyncRunStatus → Bool
is_queued SyncRunStatus.queued = true
is_queued _ = false

abbrev pub is_syncing : SyncRunStatus → Bool
is_syncing SyncRunStatus.syncing = true
is_syncing _ = false

abbrev pub is_terminal : SyncRunStatus → Bool
is_terminal SyncRunStatus.queued = false
is_terminal SyncRunStatus.syncing = false
is_terminal _ = true

abbrev pub is_aborted : SyncRunStatus → Bool
is_aborted SyncRunStatus.aborted = true
is_aborted _ = false

abbrev pub is_disabled : SyncAdapterStatus → Bool
is_disabled SyncAdapterStatus.disabled = true
is_disabled _ = false

abbrev pub is_ready : SyncAdapterStatus → Bool
is_ready SyncAdapterStatus.ready = true
is_ready _ = false

module _ (c : Config) where
  -- `readNow`: the instant, and the state in which it has been read. The clock's values are valid.
  abbrev pub now : Coordinator → ℕ
  now s = c.clock s.clock_reads

  abbrev pub is_fresh : ℕ → ℕ → Bool
  is_fresh last_successful_at now_ms = ltb now_ms (last_successful_at + c.freshness_ms)

  -- One round of the loop of `refreshFreshness`.
  unfoldable pub refresh_state : ℕ → SyncAdapterState → SyncAdapterState
  refresh_state now_ms state =
      if is_ready state.status
      then elim state.last_successful_at [
        | none ↦ state
        | some at ↦
            if is_fresh at now_ms then state else record state { status = SyncAdapterStatus.stale }
      ]
      else state

  unfoldable pub refresh_freshness : ℕ → Coordinator → Coordinator
  unfolding refresh_state
  refresh_freshness now_ms s = record s { states = for_each s.states (refresh_state now_ms) }

-- `persistRun`
unfoldable pub persist_run : SyncRun → Coordinator → Coordinator
persist_run run s = record s {
  persistence = elim s.persistence [ none ↦ none | some table ↦ some (save run table) ];
  persisted_runs =
      if has s.runs run.run_id then s.persisted_runs else put s.persisted_runs run.run_id run;
}
