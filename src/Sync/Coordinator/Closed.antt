-- ===== src/Sync/Coordinator/Closed.antt =====
-- A coordinator that shuts down stays shut and idle: `shutdown` of
-- apps/core/src/sync-coordinator.ts and what can happen after it.
use text.Mathlib.TextPositions.{eq_refl}
use agent_metrics.Prelude.{
  ◌+◌, ◌≡◌, refl, String, true, false, ◌||◌, none, some, [], ◌∷◌, List, inl, inr, arith, ◌∙◌, ap,
  Option-cases, Bool-cases, Option, length, filter, if_cases, not, ◌&&◌,
}
use agent_metrics.Prelude.Maps.{JsMap, values_at}
use agent_metrics.Prelude.Texts.{contains}
use agent_metrics.Sync.Types.{SyncAdapterState}
use agent_metrics.Sync.Utils.{fail}
use agent_metrics.Sync.Coordinator.{Config, InternalRun, Coordinator, is_aborted, is_syncing}
use agent_metrics.Sync.Coordinator.Completion.{Settlement, settle, settle_run, finish_run, time_out}
use agent_metrics.Sync.Coordinator.Registration.{
  is_busy, register, set_enabled, mark_background_success,
}
use agent_metrics.Sync.Coordinator.Methods.{
  trigger, accept, accept_adapters, manual_sync, start_initial_sync, is_enabled_in,
}
use agent_metrics.Sync.Coordinator.Maintenance.{
  shutdown, has_active_work, any_busy, start_periodic_sync, stop_periodic_sync, tick, get_status,
  get_run, get_runs, prune_runs,
}
use agent_metrics.Sync.Coordinator.Invariant.{IsValid, queued_at, syncing_at}
use agent_metrics.Sync.Coordinator.Closing.{shutdown-IsValid, shutdown-lists}
use agent_metrics.Sync.Coordinator.Events.{
  Event, registers, enables, triggers, syncs, syncs_initially, starts_timer, stops_timer, ticks,
  reads_status, reads_runs, shuts_down, reads_run, marks_success, times_out, settles, step, run,
  run-IsValid,
}

-- No state of a valid coordinator that shuts down has a run.
closed-idle :
    (c : Config) (s : Coordinator) (a : String) (state : SyncAdapterState)
    → IsValid c s
    → s.shutting_down ≡ true
    → s.states.get a ≡ some state
    → is_busy state ≡ false
closed-idle c s a state v shut found = elim (Option-cases state.active_run_id) [
  | inr (r, e) ↦ absurd (ground (arith, v.linked.active a r, v.listed.closed shut r, eq_refl r))
  | inl none_active ↦ elim (Option-cases state.pending_run_id) [
    | inr (r, e) ↦ absurd (ground (arith, v.linked.pending a r, v.listed.closed shut r, eq_refl r))
    | inl none_pending ↦ ground arith
  ]
]

any_busy-values_at :
    (m : JsMap SyncAdapterState) (ids : List String)
    → ((a : String) (state : SyncAdapterState) → m.get a ≡ some state → is_busy state ≡ false)
    → any_busy (values_at ids m) ≡ false
any_busy-values_at m [] h = refl
any_busy-values_at m (a ∷ ids) h = elim (Option-cases (m.get a)) [
  | inl missing ↦ ground (arith, any_busy-values_at m ids h)
  | inr (state, found) ↦ ground (arith, any_busy-values_at m ids h, h a state found)
]

none_contained : (ids : List String) → ((r : String) → contains ids r ≡ false) → length ids ≡ 0
unfolding contains
none_contained [] h = refl
none_contained (r ∷ ids) h = absurd (ground (arith, h r, eq_refl r))

-- Nothing opens a coordinator again.
module _ (c : Config) where
  accept_adapters-closed :
      (ids : List String) (s : Coordinator)
      → s.shutting_down ≡ true
      → (accept_adapters c ids s).1 ≡ s
  unfolding accept_adapters
  accept_adapters-closed ids s shut = rw shut refl

  manual_sync-closed :
      (id : Option String) (s : Coordinator) → s.shutting_down ≡ true → (manual_sync c id s).1 ≡ s
  unfolding manual_sync
  manual_sync-closed none s shut =
      accept_adapters-closed (filter (is_enabled_in c s) s.adapters.keys) s shut
  manual_sync-closed (some id) s shut = accept_adapters-closed (id ∷ []) s shut

  start_initial_sync-closed :
      (ids : Option (List String)) (s : Coordinator)
      → s.shutting_down ≡ true
      → (start_initial_sync c ids s).1.shutting_down ≡ true
  unfolding start_initial_sync
  start_initial_sync-closed none s shut =
      ap (λ (t : Coordinator). t.shutting_down) (manual_sync-closed none s shut) ∙ shut
  start_initial_sync-closed (some ids) s shut = ground (arith, accept_adapters-closed ids s shut)

  settle_run-closed :
      (r : String) (i : InternalRun) (outcome : Settlement) (s : Coordinator)
      → s.shutting_down ≡ true
      → (settle_run c r i outcome s).shutting_down ≡ true
  unfolding settle_run
  settle_run-closed r i outcome s shut =
      if_cases (λ (t : Coordinator). t.shutting_down ≡ true)
        (s.shutting_down || i.aborted || is_aborted i.run.status)
        (λ late.
          if_cases (λ (t : Coordinator). t.shutting_down ≡ true)
            (i.aborted && not s.shutting_down && is_syncing i.run.status)
            (λ timed. absurd (ground arith)) (λ same. shut))
        (λ early. absurd (ground arith))

  finish_run-closed :
      (r : String) (s : Coordinator)
      → s.shutting_down ≡ true
      → (finish_run c r s).shutting_down ≡ true
  unfolding finish_run
  finish_run-closed r s shut = rw (shut, finish_run) refl

  settle-closed :
      (r : String) (outcome : Settlement) (s : Coordinator)
      → s.shutting_down ≡ true
      → (settle c r outcome s).shutting_down ≡ true
  unfolding settle
  settle-closed r outcome s shut = elim (Option-cases (s.runs.get r)) [
    | inl gone ↦ rw (gone, settle) (finish_run-closed r s shut)
    | inr (i, found) ↦
        rw (found, settle)
          (finish_run-closed r (settle_run c r i outcome s) (settle_run-closed r i outcome s shut))
  ]

  tick-closed : (s : Coordinator) → s.shutting_down ≡ true → (tick c s).shutting_down ≡ true
  unfolding tick
  tick-closed s shut = rw (shut, tick) refl

  step-closed :
      (e : Event) (s : Coordinator) → s.shutting_down ≡ true → (step c e s).shutting_down ≡ true
  unfolding step register set_enabled trigger accept start_periodic_sync stop_periodic_sync
      get_status get_runs get_run mark_background_success time_out shutdown prune_runs
  step-closed (registers a) s shut = ground arith
  step-closed (enables id on) s shut = ground arith
  step-closed (triggers id) s shut = ground arith
  step-closed (syncs id) s shut =
      ap (λ (t : Coordinator). t.shutting_down) (manual_sync-closed id s shut) ∙ shut
  step-closed (syncs_initially ids) s shut = start_initial_sync-closed ids s shut
  step-closed (starts_timer interval targets) s shut = ground arith
  step-closed stops_timer s shut = ground arith
  step-closed ticks s shut = tick-closed s shut
  step-closed reads_status s shut = shut
  step-closed reads_runs s shut = shut
  step-closed shuts_down s shut = ground arith
  step-closed (reads_run id) s shut = shut
  step-closed (marks_success id) s shut = ground arith
  step-closed (times_out id) s shut = ground arith
  step-closed (settles id outcome) s shut = settle-closed id outcome s shut

  run-closed :
      (es : List Event) (s : Coordinator)
      → s.shutting_down ≡ true
      → (run c es s).shutting_down ≡ true
  unfolding run
  run-closed [] s shut = shut
  run-closed (e ∷ es) s shut = run-closed es (step c e s) (step-closed e s shut)

  closed-no_work :
      (s : Coordinator) → IsValid c s → s.shutting_down ≡ true → has_active_work s ≡ false
  unfolding has_active_work
  closed-no_work s v shut = ground (
    arith,
    any_busy-values_at s.states s.states.keys
        (λ a state found. closed-idle c s a state v shut found),
    none_contained s.active_run_ids (λ r. ground (arith, v.listed.slots r, v.listed.closed shut r)),
    none_contained s.queued_run_ids (λ r. ground (arith, v.listed.queue r, v.listed.closed shut r)),
  )

  shutdown-closes : (s : Coordinator) → (shutdown c s).shutting_down ≡ true
  unfolding shutdown step
  shutdown-closes s = elim (Bool-cases s.shutting_down) [
    | inl shut ↦ step-closed shuts_down s shut
    | inr o ↦ let (slots, queue, shut) = shutdown-lists c s o in shut
  ]

-- Once a valid coordinator has shut down, then whatever happens afterwards, it has no active work:
-- no run waits or holds a slot, no adapter has a run, and no run is queued or syncing; and a
-- trigger is refused, with no change but the reading of the clock.
pub shutdown_quiet :
    (c : Config) (s : Coordinator) (es : List Event)
    → IsValid c s
    → (has_active_work (run c es (shutdown c s)) ≡ false)
      × ((r : String)
          → (queued_at ((run c es (shutdown c s)).runs.get r)
              || syncing_at ((run c es (shutdown c s)).runs.get r))
            ≡ false)
      × ((id : String)
          → trigger c id (run c es (shutdown c s)) ≡ (
            fail "SYNC_SHUTTING_DOWN" "Sync coordinator is shutting down",
            record (run c es (shutdown c s)) {
              clock_reads = (run c es (shutdown c s)).clock_reads + 1;
            },
          ))
unfolding trigger accept
shutdown_quiet c s es v =
    let t = run c es (shutdown c s) in
    let w = run-IsValid c es (shutdown c s) (shutdown-IsValid c s v) in
    let shut = run-closed c es (shutdown c s) (shutdown-closes c s) in
    (closed-no_work c t w shut, w.listed.closed shut, λ id. ground arith)
