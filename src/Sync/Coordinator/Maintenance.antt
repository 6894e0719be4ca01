-- ===== src/Sync/Coordinator/Maintenance.antt =====
-- Pruning, queries, the periodic timer and `shutdown` of apps/core/src/sync-coordinator.ts.
use agent_metrics.Prelude.{
  ℕ, ◌+◌, String, Bool, true, false, not, ◌&&◌, ◌||◌, Option, none, some, List, [], ◌∷◌, ◌++◌, leb,
  ltb, if◌then◌else◌, length, is_some, map,
}
use agent_metrics.Prelude.Texts.{contains}
use agent_metrics.Prelude.Maps.{JsMap, for_each, remove_where, values}
use agent_metrics.Sync.Types.{SyncAdapterState, SyncRun, SyncStatusSnapshot}
use agent_metrics.Sync.Utils.{Outcome, ok, fail}
use agent_metrics.Sync.Coordinator.{
  Config, InternalRun, PeriodicTimer, Coordinator, is_disabled, now, refresh_freshness,
}
use agent_metrics.Sync.Coordinator.Completion.{abort_run}
use agent_metrics.Sync.Coordinator.Registration.{is_busy, not_found}
use agent_metrics.Sync.Coordinator.Methods.{manual_sync, start_initial_sync}

module _ (c : Config) where
  -- The test of `pruneRuns`: the run was completed at least the retention time ago.
  unfoldable pub is_expired : ℕ → SyncRun → Bool
  is_expired now_ms run = elim run.completed_at [
    | none ↦ false
    | some at ↦ leb (at + c.run_retention_ms) now_ms
  ]

  abbrev expired_run : ℕ → JsMap InternalRun → String → Bool
  expired_run now_ms runs run_id = elim (runs.get run_id) [
    | none ↦ false
    | some internal ↦ is_expired now_ms internal.run
  ]

  abbrev expired_record : ℕ → JsMap SyncRun → String → Bool
  expired_record now_ms runs run_id = elim (runs.get run_id) [
    | none ↦ false
    | some run ↦ is_expired now_ms run
  ]

  unfoldable pub prune_runs : ℕ → Coordinator → Coordinator
  unfolding is_expired
  prune_runs now_ms s = record s {
    runs = remove_where s.runs (expired_run now_ms s.runs);
    persisted_runs = remove_where s.persisted_runs (expired_record now_ms s.persisted_runs);
    persistence = elim s.persistence [
      | none ↦ none
      | some table ↦ some (
          remove_where table
            (λ id. expired_run now_ms s.runs id || expired_record now_ms s.persisted_runs id))
    ];
  }

  -- `getStatus`: one reading of the clock serves the refresh, the pruning and the answer.
  unfoldable pub get_status : Coordinator → SyncStatusSnapshot × Coordinator
  unfolding refresh_freshness prune_runs
  get_status s =
      let at = now c s in
      let s' =
        prune_runs at (refresh_freshness c at (record s { clock_reads = s.clock_reads + 1 })) in
      (
        record { generated_at = at; shutting_down = s'.shutting_down; adapters = values s'.states },
        s',
      )

  unfoldable pub get_run : String → Coordinator → Option SyncRun × Coordinator
  unfolding prune_runs
  get_run run_id s =
      let s' = prune_runs (now c s) (record s { clock_reads = s.clock_reads + 1 }) in
      (
        elim (s'.runs.get run_id) [
          | some internal ↦ some internal.run
          | none ↦ s'.persisted_runs.get run_id
        ],
        s',
      )

  unfoldable pub get_runs : Coordinator → List SyncRun × Coordinator
  unfolding prune_runs
  get_runs s =
      let s' = prune_runs (now c s) (record s { clock_reads = s.clock_reads + 1 }) in
      (map (λ internal. internal.run) (values s'.runs) ++ values s'.persisted_runs, s')

abbrev pub any_busy : List SyncAdapterState → Bool
any_busy [] = false
any_busy (state ∷ states) = is_busy state || any_busy states

-- `hasActiveWork`
unfoldable pub has_active_work : Coordinator → Bool
has_active_work s =
    any_busy (values s.states) || ltb 0 (length s.active_run_ids) || ltb 0 (length s.queued_run_ids)

-- `stopPeriodicSync`
unfoldable pub stop_periodic_sync : Coordinator → Coordinator
stop_periodic_sync s =
    if is_some s.periodic_timer
    then record s {
      periodic_timer = none;
      states = for_each s.states (λ state. record state { next_scheduled_at = none });
    }
    else s

abbrev is_target : Option (List String) → String → Bool
is_target none id = true
is_target (some ids) id = contains ids id

-- The first id of which `getStateOrThrow` finds no state.
abbrev pub first_missing : List String → Coordinator → Option String
first_missing [] s = none
first_missing (id ∷ ids) s =
    let rest = first_missing ids s in if is_some (s.states.get id) then rest else some id

module _ (c : Config) where
  -- `scheduleNext` of the timer.
  unfoldable pub schedule_next : PeriodicTimer → Coordinator → Coordinator
  schedule_next timer s = record s {
    clock_reads = s.clock_reads + 1;
    states = for_each s.states (λ state.
        if not (is_disabled state.status) && is_target timer.targets state.adapter_instance_id
        then record state { next_scheduled_at = some (now c s + timer.interval) }
        else state);
  }

  -- `startPeriodicSync`; the interval has passed `normalizeDuration`.
  unfoldable pub start_periodic_sync :
      ℕ → Option (List String) → Coordinator → Outcome (Unit {0}) × Coordinator
  unfolding schedule_next
  start_periodic_sync interval targets s =
      if s.shutting_down
      then (fail "SYNC_SHUTTING_DOWN" "Sync coordinator is shutting down", s)
      else if is_some s.periodic_timer || not (ltb 0 interval)
      then (ok tt, s)
      else let timer : PeriodicTimer = record { interval = interval; targets = targets } in
        let started : Outcome (Unit {0}) × Coordinator =
          (ok tt, record (schedule_next timer s) { periodic_timer = some timer }) in
        elim targets [
          | none ↦ started
          | some ids ↦ elim (first_missing ids s) [ none ↦ started | some id ↦ (not_found id, s) ]
        ]

  -- The callback of the interval; what it throws is swallowed.
  unfoldable pub tick : Coordinator → Coordinator
  unfolding schedule_next
  tick s = if s.shutting_down then s else elim s.periodic_timer [
    | none ↦ s
    | some timer ↦ elim timer.targets [
      | none ↦ schedule_next timer (manual_sync c none s).1
      | some ids ↦ schedule_next timer (start_initial_sync c (some ids) s).1
    ]
  ]

-- The loop of `shutdown` over the ids of the accepted runs.
unfoldable pub abort_all : Config → ℕ → List String → Coordinator → Coordinator
abort_all c at [] s = s
abort_all c at (run_id ∷ ids) s =
    abort_all c at ids
      (elim (s.runs.get run_id) [ none ↦ s | some internal ↦ abort_run c run_id at internal s ])

unfoldable pub shutdown : Config → Coordinator → Coordinator
unfolding stop_periodic_sync
shutdown c s =
    if s.shutting_down
    then s
    else let stopped = stop_periodic_sync (record s { shutting_down = true }) in
      let accepted = s.queued_run_ids ++ s.active_run_ids in
      let aborted =
        abort_all c (now c s) accepted
          (record stopped { clock_reads = s.clock_reads + 1; queued_run_ids = [] }) in
      record aborted { active_run_ids = [] }
