-- ===== src/Sync/Coordinator/Runs.antt =====
-- The start of a run: `startRun` and `drainQueue` of apps/core/src/sync-coordinator.ts.
use agent_metrics.Prelude.{
  ℕ, ◌+◌, String, not, ◌&&◌, ◌||◌, none, some, List, [], ◌∷◌, ltb, if◌then◌else◌, length,
}
use agent_metrics.Prelude.Texts.{add}
use agent_metrics.Prelude.Maps.{put}
use agent_metrics.Sync.Types.{SyncAdapterState, SyncAdapterStatus, SyncRun, SyncRunStatus}
use agent_metrics.Sync.Coordinator.{Config, InternalRun, Coordinator, is_queued, now, persist_run}

module _ (c : Config) where
  abbrev started_state : String → ℕ → SyncAdapterState → SyncAdapterState
  started_state run_id at state = record state {
    status = SyncAdapterStatus.syncing;
    active_run_id = some run_id;
    pending_run_id = none;
    last_started_at = some at;
  }

  abbrev started_run : ℕ → SyncRun → SyncRun
  started_run at run = record run { status = SyncRunStatus.syncing; started_at = some at }

  -- `startRun` for the run under `run_id`, up to the call of the adapter. A state that is missing,
  -- which would throw, is not met: states are never removed.
  unfoldable pub start_run : String → InternalRun → Coordinator → Coordinator
  unfolding persist_run
  start_run run_id internal s =
      if not (is_queued internal.run.status) || s.shutting_down
      then s
      else elim (s.states.get internal.run.adapter_instance_id) [
        | none ↦ s
        | some state ↦
            let at = now c s in
            let run = started_run at internal.run in
            persist_run run (record s {
              clock_reads = s.clock_reads + 1;
              runs = put s.runs run_id (record internal { run = run });
              states =
                  put s.states internal.run.adapter_instance_id (started_state run_id at state);
              active_run_ids = add s.active_run_ids run_id;
            })
      ]

  -- One round of `drainQueue`, for the id that was shifted off the queue.
  unfoldable pub start_shifted : String → Coordinator → Coordinator
  unfolding start_run
  start_shifted run_id s = elim (s.runs.get run_id) [
    | none ↦ s
    | some internal ↦ if is_queued internal.run.status then start_run run_id internal s else s
  ]

  -- The loop, by recursion on the ids that are left in the queue.
  unfoldable pub drain_from : List String → Coordinator → Coordinator
  drain_from [] s = s
  drain_from (run_id ∷ rest) s =
      let drained = drain_from rest (start_shifted run_id (record s { queued_run_ids = rest })) in
      if not s.shutting_down && ltb (length s.active_run_ids) c.concurrency then drained else s

  unfoldable pub drain_queue : Coordinator → Coordinator
  unfolding drain_from
  drain_queue s = drain_from s.queued_run_ids s
