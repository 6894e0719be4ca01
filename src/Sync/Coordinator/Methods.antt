-- ===== src/Sync/Coordinator/Methods.antt =====
-- Acceptance: `accept`, `acceptAdapters`, `trigger`, `manualSync` and `startInitialSync` of
-- apps/core/src/sync-coordinator.ts. A method returns its outcome and the state, which a throw
-- leaves as it is by then.
use Prim.Native.String.{◌++◌ as ◌++s◌}
use agent_metrics.Prelude.{
  ℕ, ◌+◌, String, Bool, false, not, ◌||◌, Option, none, some, List, [], ◌∷◌, ◌++◌, ltb,
  if◌then◌else◌, length, filter,
}
use agent_metrics.Prelude.Maps.{has, put}
use agent_metrics.Sync.Types.{
  SyncAdapter, SyncAdapterState, SyncAdapterStatus, SyncRun, SyncRunStatus, SyncTriggerDisposition,
  SyncTriggerResult, ManualSyncResponse,
}
use agent_metrics.Sync.Utils.{Outcome, ok, throws, fail, is_blank, snapshot_state}
use agent_metrics.Sync.Coordinator.{
  Config, InternalRun, Coordinator, is_disabled, now, refresh_freshness, persist_run,
}
use agent_metrics.Sync.Coordinator.Runs.{start_run}
use agent_metrics.Sync.Coordinator.Registration.{Step, not_found, shutting_down_error}

module _ (c : Config) where
  abbrev pub new_run : String → String → ℕ → SyncRun
  new_run run_id id at = record {
    run_id = run_id;
    adapter_instance_id = id;
    status = SyncRunStatus.queued;
    accepted_at = at;
    started_at = none;
    completed_at = none;
    discovered_records = 0;
    committed_unique_events = 0;
    projected_unique_events = 0;
    projection_watermark = none;
    error = none;
  }

  abbrev answer : String → String → SyncTriggerDisposition → Outcome SyncTriggerResult
  answer id run_id disposition =
      ok (record { adapter_instance_id = id; run_id = run_id; disposition = disposition })

  -- The end of `accept`: the new run is started, or waits its turn.
  unfoldable pub place_run :
      String → String → ℕ → SyncAdapterState → Coordinator → Step SyncTriggerResult
  unfolding persist_run snapshot_state
  place_run run_id id at state s =
      let internal : InternalRun = record {
        run = new_run run_id id at;
        aborted = false;
        restore = snapshot_state state;
      } in
      let saved = persist_run internal.run (record s { runs = put s.runs run_id internal }) in
      if ltb (length saved.active_run_ids) c.concurrency
      then (answer id run_id SyncTriggerDisposition.started, start_run c run_id internal saved)
      else (
        answer id run_id SyncTriggerDisposition.queued,
        record saved {
          queued_run_ids = s.queued_run_ids ++ run_id ∷ [];
          states =
              put s.states id
                (record state { pending_run_id = some run_id; status = SyncAdapterStatus.queued });
        },
      )

  -- The part of `accept` that makes a run id and refuses one that is taken.
  unfoldable pub create_run : String → ℕ → SyncAdapterState → Coordinator → Step SyncTriggerResult
  unfolding place_run
  create_run id at state s =
      let run_id = c.run_id_factory id at s.run_calls in
      let called = record s { run_calls = s.run_calls + 1 } in
      if is_blank run_id
      then (fail "INVALID_ID" "runId must be a non-empty string", called)
      else if has s.runs run_id || has s.persisted_runs run_id
      then (fail "RUN_ID_COLLISION" ("Run " ++s run_id ++s " already exists"), called)
      else place_run run_id id at state called

  -- The part of `accept` after the freshness has been refreshed.
  unfoldable pub accept_state :
      String → ℕ → SyncAdapter → SyncAdapterState → Coordinator → Step SyncTriggerResult
  unfolding create_run
  accept_state id at adapter state s =
      if not adapter.enabled || is_disabled state.status
      then (fail "ADAPTER_DISABLED" ("Adapter " ++s id ++s " is disabled"), s)
      else elim state.active_run_id [
        | some run_id ↦ (answer id run_id SyncTriggerDisposition.coalesced, s)
        | none ↦ elim state.pending_run_id [
          | some run_id ↦ (answer id run_id SyncTriggerDisposition.coalesced, s)
          | none ↦ create_run id at state s
        ]
      ]

  unfoldable pub accept : String → ℕ → Coordinator → Step SyncTriggerResult
  unfolding accept_state refresh_freshness
  accept id at s = if s.shutting_down then (shutting_down_error, s) else elim (s.adapters.get id) [
    | none ↦ (not_found id, s)
    | some adapter ↦
        let fresh = refresh_freshness c at s in
        elim (fresh.states.get id) [
          | none ↦ (not_found id, s)
          | some state ↦ accept_state id at adapter state fresh
        ]
  ]

  -- `trigger`, which `requestSync` and `triggerSync` only call.
  unfoldable pub trigger : String → Coordinator → Step SyncTriggerResult
  unfolding accept
  trigger id s = accept id (now c s) (record s { clock_reads = s.clock_reads + 1 })

  -- The `map` of `acceptAdapters`: the first throw ends it.
  unfoldable pub accept_each : ℕ → List String → Coordinator → Step (List SyncTriggerResult)
  unfolding accept
  accept_each at [] s = (ok [], s)
  accept_each at (id ∷ ids) s =
      let (first, s1) = accept id at s in
      elim first [
        | throws e ↦ (throws e, s1)
        | ok result ↦
            let (rest, s2) = accept_each at ids s1 in
            elim rest [ throws e ↦ (throws e, s2) | ok results ↦ (ok (result ∷ results), s2) ]
      ]

  unfoldable pub accept_adapters : List String → Coordinator → Step ManualSyncResponse
  unfolding accept_each
  accept_adapters ids s =
      if s.shutting_down
      then (shutting_down_error, s)
      else let at = now c s in
        let request_id = c.request_id_factory s.request_calls in
        let called = record s {
          clock_reads = s.clock_reads + 1;
          request_calls = s.request_calls + 1;
        } in
        if is_blank request_id
        then (fail "INVALID_ID" "requestId must be a non-empty string", called)
        else let (runs, s') = accept_each at ids called in
          elim runs [
            | throws e ↦ (throws e, s')
            | ok results ↦
                (ok (record { request_id = request_id; accepted_at = at; runs = results }), s')
          ]

  -- `getStateOrThrow(id).status !== "disabled"`, for an id that is registered.
  abbrev pub is_enabled_in : Coordinator → String → Bool
  is_enabled_in s id = elim (s.states.get id) [
    | none ↦ false
    | some state ↦ not (is_disabled state.status)
  ]

  unfoldable pub manual_sync : Option String → Coordinator → Step ManualSyncResponse
  unfolding accept_adapters
  manual_sync none s = accept_adapters (filter (is_enabled_in s) s.adapters.keys) s
  manual_sync (some id) s = accept_adapters (id ∷ []) s

  -- The filter of `startInitialSync`: the first id that is not registered throws.
  abbrev pub enabled_of : Coordinator → List String → Outcome (List String)
  enabled_of s [] = ok []
  enabled_of s (id ∷ ids) =
      let rest = enabled_of s ids in
      elim (s.states.get id) [
        | none ↦ not_found id
        | some state ↦ elim rest [
          | throws e ↦ throws e
          | ok kept ↦ ok (if is_disabled state.status then kept else id ∷ kept)
        ]
      ]

  unfoldable pub start_initial_sync : Option (List String) → Coordinator → Step ManualSyncResponse
  unfolding accept_adapters
  start_initial_sync none s = manual_sync none s
  start_initial_sync (some ids) s = elim (enabled_of s ids) [
    | throws e ↦ (throws e, s)
    | ok kept ↦ accept_adapters kept s
  ]
