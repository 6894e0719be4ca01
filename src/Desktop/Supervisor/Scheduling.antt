-- ===== src/Desktop/Supervisor/Scheduling.antt =====
-- What `scheduleRestart` and its timers do, branch by branch.
use agent_metrics.Prelude.{
  ℕ, ◌+◌, ◌≡◌, refl, Bool, true, false, not, ◌||◌, ◌==◌, leb, Option, none, some, arith, ap, ◌∙◌,
  is_some, length,
}
use agent_metrics.Desktop.Supervisor.State.{
  ChildName, watcher, parser, core, starting, Tracker, RestartTimer, Supervisor, set_at,
  set_tracker, is_external, max_restarts_per_window, restart_delay_ms, refresh_runtime_state,
}
use agent_metrics.Desktop.Supervisor.Turns.{
  Spawn, spawned, is_child, schedule_restart, trim_failure_window, launch_child,
  restart_timer_fires,
}

pub set_at-same {ℓ} :
    {A : Type ℓ} (f : ChildName → A) (name : ChildName) (v : A) → set_at f name v name ≡ v
set_at-same f watcher v = refl
set_at-same f parser v = refl
set_at-same f core v = refl

pub ==_refl : (n : ℕ) → (n == n) ≡ true
==_refl n = ground arith

-- The tests of `scheduleRestart`.
abbrev pub is_off : Supervisor → ChildName → Bool
is_off s name =
    s.stopping
    || (is_some (s.restart_timers name)
        || ((s.trackers name).latched || is_external (s.trackers name).ownership))

module _ (now : ℕ) (name : ChildName) (generation : ℕ) (s : Supervisor) where
  pub schedule-off : is_off s name ≡ true → schedule_restart now name generation s ≡ s
  unfolding schedule_restart
  schedule-off off = rw (off, schedule_restart) refl

  pub schedule-full :
      (t : Tracker)
      → is_off s name ≡ false
      → trim_failure_window now (s.trackers name) ≡ t
      → leb max_restarts_per_window (length t.failure_timestamps) ≡ true
      → schedule_restart now name generation s
        ≡ refresh_runtime_state (set_tracker name (record t { latched = true }) s)
  unfolding schedule_restart
  schedule-full t on same full =
      let full' : leb max_restarts_per_window
            (length (trim_failure_window now (s.trackers name)).failure_timestamps)
          ≡ true =
        ap (λ u. leb max_restarts_per_window (length u.failure_timestamps)) same ∙ full in
      rw (on, schedule_restart, full')
        (ap (λ u. refresh_runtime_state (set_tracker name (record u { latched = true }) s)) same)

  pub schedule-room :
      (t : Tracker)
      → is_off s name ≡ false
      → trim_failure_window now (s.trackers name) ≡ t
      → leb max_restarts_per_window (length t.failure_timestamps) ≡ false
      → schedule_restart now name generation s ≡ record (set_tracker name t s) {
        restart_timers = set_at s.restart_timers name (
            some (record {
              generation = generation;
              delay = restart_delay_ms t.consecutive_failures;
            }));
      }
  unfolding schedule_restart
  schedule-room t on same room =
      let room' : leb max_restarts_per_window
            (length (trim_failure_window now (s.trackers name)).failure_timestamps)
          ≡ false =
        ap (λ u. leb max_restarts_per_window (length u.failure_timestamps)) same ∙ room in
      rw (on, schedule_restart, room')
        (ap
          (λ u. record (set_tracker name u s) {
            restart_timers = set_at s.restart_timers name (
                some (record {
                  generation = generation;
                  delay = restart_delay_ms u.consecutive_failures;
                }));
          })
          same)

-- A timer that finds its record and room in the window launches a child.
pub fires-launches :
    (later : ℕ) (name : ChildName) (pid : Option ℕ) (t : Supervisor) (timer : RestartTimer)
    → t.restart_timers name ≡ some timer
    → t.stopping ≡ false
    → is_child (t.children name) timer.generation ≡ true
    → (t.trackers name).latched ≡ false
    → leb max_restarts_per_window
        (length (trim_failure_window later (t.trackers name)).failure_timestamps)
      ≡ false
    → (restart_timer_fires later name (spawned pid) t).children name
      ≡ some (record {
        pid = pid;
        generation = t.generation + 1;
        state = starting;
        intentional = false;
        exited = false;
        force_kill_requested = false;
      })
unfolding restart_timer_fires launch_child
fires-launches later name pid t timer planned open_ known free room =
    let go : (t.stopping
          || (not (is_child (t.children name) timer.generation) || (t.trackers name).latched))
        ≡ false =
      ground (arith, open_, known, free) in
    rw (planned, restart_timer_fires, go, room) (set_at-same t.children name _)

-- A timer that finds another record does nothing.
pub fires-lost :
    (later : ℕ) (name : ChildName) (spawn : Spawn) (t : Supervisor) (timer : RestartTimer)
    → t.restart_timers name ≡ some timer
    → is_child (t.children name) timer.generation ≡ false
    → restart_timer_fires later name spawn t
      ≡ record t { restart_timers = set_at t.restart_timers name none }
unfolding restart_timer_fires
fires-lost later name spawn t timer planned other_ =
    let stays : (t.stopping
          || (not (is_child (t.children name) timer.generation) || (t.trackers name).latched))
        ≡ true =
      ground (arith, other_) in
    rw (planned, restart_timer_fires, stays) refl
