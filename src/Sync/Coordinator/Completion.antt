-- ===== src/Sync/Coordinator/Completion.antt =====
-- The end of a run: `execute` after its promise has settled, `completeSuccess`, `completeFailure`
-- and `abortRun` of apps/core/src/sync-coordinator.ts.
use agent_metrics.Prelude.{
  ℕ, ◌+◌, String, true, not, ◌&&◌, ◌||◌, none, some, if◌then◌else◌, is_some,
}
use agent_metrics.Prelude.Texts.{delete}
use agent_metrics.Prelude.Maps.{put}
use agent_metrics.Sync.Types.{SyncAdapterStatus, SyncError, SyncResult, SyncRunStatus}
use agent_metrics.Sync.Utils.{
  RawResult, Thrown, coordinator_error, ok, throws, normalize_result, to_sync_error, restore_state,
}
use agent_metrics.Sync.Coordinator.{
  Config, InternalRun, Coordinator, is_syncing, is_terminal, is_aborted, now, persist_run,
}
use agent_metrics.Sync.Coordinator.Runs.{drain_queue}

module _ (c : Config) where
  -- `completeSuccess`
  unfoldable pub complete_success : String → InternalRun → SyncResult → Coordinator → Coordinator
  unfolding persist_run
  complete_success run_id internal result s =
      if not (is_syncing internal.run.status)
      then s
      else let at = now c s in
        let run = record (internal.run) {
          discovered_records = result.discovered_records;
          committed_unique_events = result.committed_unique_events;
          projected_unique_events = result.projected_unique_events;
          projection_watermark = some result.projection_watermark;
          status = SyncRunStatus.succeeded;
          completed_at = some at;
          error = none;
        } in
        let saved = persist_run run (record s {
          clock_reads = s.clock_reads + 1;
          runs = put s.runs run_id (record internal { run = run });
        }) in
        elim (s.states.get run.adapter_instance_id) [
          | none ↦ saved
          | some state ↦ record saved {
            states = put s.states run.adapter_instance_id (record state {
              status = SyncAdapterStatus.ready;
              active_run_id = none;
              pending_run_id = none;
              last_completed_at = some at;
              last_successful_at = some at;
              last_error = none;
              consecutive_failures = 0;
            });
          }
        ]

  -- `completeFailure`
  unfoldable pub complete_failure : String → InternalRun → SyncError → Coordinator → Coordinator
  unfolding persist_run
  complete_failure run_id internal error s =
      if not (is_syncing internal.run.status)
      then s
      else let at = now c s in
        let run = record (internal.run) {
          status = SyncRunStatus.failed;
          completed_at = some at;
          error = some error;
        } in
        let saved = persist_run run (record s {
          clock_reads = s.clock_reads + 1;
          runs = put s.runs run_id (record internal { run = run });
        }) in
        elim (s.states.get run.adapter_instance_id) [
          | none ↦ saved
          | some state ↦ record saved {
            states = put s.states run.adapter_instance_id (record state {
              status =
                  if is_some internal.restore.last_successful_at
                  then SyncAdapterStatus.stale
                  else SyncAdapterStatus.error;
              active_run_id = none;
              pending_run_id = none;
              last_completed_at = some at;
              last_error = some error;
              consecutive_failures = state.consecutive_failures + 1;
            });
          }
        ]

  -- `abortRun`, and the abort of the run's controller, which follows it in `shutdown`.
  unfoldable pub abort_run : String → ℕ → InternalRun → Coordinator → Coordinator
  unfolding persist_run restore_state
  abort_run run_id at internal s =
      if is_terminal internal.run.status
      then record s { runs = put s.runs run_id (record internal { aborted = true }) }
      else let run = record (internal.run) {
        status = SyncRunStatus.aborted;
        completed_at = some at;
        error = none;
      } in
        let saved =
          persist_run run (record s {
            runs = put s.runs run_id (record internal { run = run; aborted = true });
          }) in
        elim (s.states.get run.adapter_instance_id) [
          | none ↦ saved
          | some state ↦ record saved {
            states = put s.states run.adapter_instance_id (restore_state state internal.restore);
          }
        ]

-- How the adapter's promise settles.
pub data Settlement : Type 0 where
  resolved : RawResult → Settlement
  rejected : Thrown → Settlement

abbrev pub timeout_error : SyncError
timeout_error = record {
  code = "SYNC_TIMEOUT";
  summary = "Sync exceeded 3 minutes and was aborted";
}

module _ (c : Config) where
  -- What `execute` does with a settled promise, its `finally` left out.
  unfoldable pub settle_run : String → InternalRun → Settlement → Coordinator → Coordinator
  unfolding complete_success complete_failure
  settle_run run_id internal outcome s =
      if s.shutting_down || internal.aborted || is_aborted internal.run.status
      then if internal.aborted && not s.shutting_down && is_syncing internal.run.status
        then complete_failure c run_id internal timeout_error s
        else s
      else elim outcome [
        | resolved raw ↦ elim (normalize_result raw) [
          | ok result ↦ complete_success c run_id internal result s
          | throws e ↦ complete_failure c run_id internal (to_sync_error (coordinator_error e)) s
        ]
        | rejected e ↦ complete_failure c run_id internal (to_sync_error e) s
      ]

  -- The `finally` block of `execute`.
  unfoldable pub finish_run : String → Coordinator → Coordinator
  finish_run run_id s =
      let left = record s { active_run_ids = delete s.active_run_ids run_id } in
      if left.shutting_down then left else drain_queue c left

  -- `execute` from the point where the promise of the run has settled. A run that has left the map
  -- was completed before, and then only the `finally` block has an effect.
  unfoldable pub settle : String → Settlement → Coordinator → Coordinator
  unfolding finish_run
  settle run_id outcome s = elim (s.runs.get run_id) [
    | none ↦ finish_run run_id s
    | some internal ↦ finish_run run_id (settle_run run_id internal outcome s)
  ]

-- The timer of `execute` fires while the adapter is still at work.
unfoldable pub time_out : String → Coordinator → Coordinator
time_out run_id s = elim (s.runs.get run_id) [
  | none ↦ s
  | some internal ↦ record s { runs = put s.runs run_id (record internal { aborted = true }) }
]
