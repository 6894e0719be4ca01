-- ===== src/Desktop/Supervisor/Crashing.antt =====
-- The supervisor right after the crash of a child.
use agent_metrics.Prelude.{
  ℕ, ◌+◌, ◌-◌, ◌≡◌, refl, String, true, false, not, ◌||◌, ◌==◌, leb, Option, none, some, List,
  arith, ap, ◌∙◌, length, filter, length-filter-le,
}
use agent_metrics.Desktop.Supervisor.State.{
  ChildName, starting, degraded, Tracker, ManagedChild, RestartTimer, Supervisor, set_at,
  set_tracker, is_external, max_restarts_per_window, restart_delay_ms, failure_window_ms,
  refresh_runtime_state,
}
use agent_metrics.Desktop.Supervisor.Turns.{
  spawned, is_child, schedule_restart, trim_failure_window, with_failure, mark_unexpected_exit,
  restart_timer_fires,
}
use agent_metrics.Desktop.Supervisor.Scheduling.{
  set_at-same, ==_refl, is_off, schedule-off, schedule-full, schedule-room, fires-launches,
}

-- The automatic launches of the child in the last ten minutes.
abbrev pub recent_launches : Supervisor → ChildName → ℕ → List ℕ
recent_launches s name now =
    filter (λ at. leb (now - failure_window_ms) at) (s.trackers name).failure_timestamps

-- A child that runs and was not told to stop, under a supervisor that does not stop; it is neither
-- latched nor owned outside.
pub record IsRunning (s : Supervisor) (name : ChildName) (child : ManagedChild) : Type 0 where
  pub found : s.children name ≡ some child
  pub live : child.exited ≡ false
  pub unasked : child.intentional ≡ false
  pub supervised : s.stopping ≡ false
  pub unlatched : (s.trackers name).latched ≡ false
  pub owned : is_external (s.trackers name).ownership ≡ false

module _ (s : Supervisor) (name : ChildName) (child : ManagedChild) (now : ℕ) (code : Option ℕ)
    (signal error : Option String) (r : IsRunning s name child) where
  abbrev pub crashed_tracker : Tracker
  crashed_tracker = record (with_failure error (record (s.trackers name) { stable_timer = none })) {
    last_exit = some (record { code = code; signal = signal; at = now });
  }

  -- The supervisor when the restart is planned.
  abbrev pub gone : Supervisor
  gone = record s {
    trackers =
        set_at (set_at s.trackers name (record (s.trackers name) { stable_timer = none })) name
          crashed_tracker;
    children = set_at s.children name (some (record child { exited = true; state = degraded }));
    state = degraded;
  }

  abbrev pub crash : Supervisor
  crash = mark_unexpected_exit now name child.generation code signal error s

  crash-gone : crash ≡ schedule_restart now name child.generation gone
  unfolding mark_unexpected_exit
  crash-gone =
      let known : (child.exited || not (child.generation == child.generation)) ≡ false =
        ground (arith, r.live, ==_refl child.generation) in
      let expected : (child.intentional || s.stopping) ≡ false =
        ground (arith, r.unasked, r.supervised) in
      rw (r.found, mark_unexpected_exit, known, expected) refl

  pub gone-tracker : gone.trackers name ≡ crashed_tracker
  gone-tracker =
      set_at-same (set_at s.trackers name (record (s.trackers name) { stable_timer = none })) name
        crashed_tracker

  abbrev pub recent : List ℕ
  recent = recent_launches s name now

  abbrev pub trimmed : Tracker
  trimmed = record crashed_tracker { failure_timestamps = recent }

  trimmed-gone : trim_failure_window now (gone.trackers name) ≡ trimmed
  trimmed-gone = ap (trim_failure_window now) gone-tracker

  -- Nothing is planned where something is.
  pub crash-planned : (timer : RestartTimer) → s.restart_timers name ≡ some timer → crash ≡ gone
  crash-planned timer planned =
      crash-gone ∙ schedule-off now name child.generation gone (ground (arith, planned))

  gone-on : s.restart_timers name ≡ none → is_off gone name ≡ false
  gone-on idle = rw (gone-tracker) (ground (arith, r.supervised, idle, r.unlatched, r.owned))

  pub crash-full :
      s.restart_timers name ≡ none
      → leb max_restarts_per_window (length recent) ≡ true
      → crash ≡ refresh_runtime_state (set_tracker name (record trimmed { latched = true }) gone)
  crash-full idle full =
      crash-gone
      ∙ schedule-full now name child.generation gone trimmed (gone-on idle) trimmed-gone full

  abbrev pub planned_timer : RestartTimer
  planned_timer = record {
    generation = child.generation;
    delay = restart_delay_ms ((s.trackers name).consecutive_failures + 1);
  }

  abbrev pub planned : Supervisor
  planned = record (set_tracker name trimmed gone) {
    restart_timers = set_at s.restart_timers name (some planned_timer);
  }

  pub crash-room :
      s.restart_timers name ≡ none
      → leb max_restarts_per_window (length recent) ≡ false
      → crash ≡ planned
  crash-room idle room =
      crash-gone
      ∙ schedule-room now name child.generation gone trimmed (gone-on idle) trimmed-gone room

  -- The timer that was planned launches a new child.
  pub planned-fires :
      (later : ℕ) (pid : Option ℕ)
      → leb max_restarts_per_window (length recent) ≡ false
      → (restart_timer_fires later name (spawned pid) planned).children name
        ≡ some (record {
          pid = pid;
          generation = s.generation + 1;
          state = starting;
          intentional = false;
          exited = false;
          force_kill_requested = false;
        })
  planned-fires later pid room =
      let tracker : planned.trackers name ≡ trimmed = set_at-same gone.trackers name trimmed in
      let few = length-filter-le (λ at. leb (later - failure_window_ms) at) recent in
      fires-launches later name pid planned planned_timer
        (set_at-same s.restart_timers name (some planned_timer)) r.supervised
        (ap (λ c. is_child c child.generation)
            (set_at-same s.children name (some (record child { exited = true; state = degraded })))
          ∙ ==_refl child.generation)
        (ap (λ t. t.latched) tracker ∙ r.unlatched)
        (ap
            (λ t.
              leb max_restarts_per_window (length (trim_failure_window later t).failure_timestamps))
            tracker
          ∙ ground (arith, few, room))
