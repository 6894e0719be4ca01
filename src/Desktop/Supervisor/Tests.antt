-- ===== src/Desktop/Supervisor/Tests.antt =====
-- Runs of the supervisor, and the theorems at concrete states.
use agent_metrics.Prelude.{
  ◌+◌, ◌≡◌, refl, true, false, not, ◌&&◌, none, some, List, [], ◌∷◌, ◌⊎◌, arith, leb, length,
}
use agent_metrics.Desktop.Supervisor.State.{
  ChildName, watcher, parser, core, starting, ready, degraded, stopped, ManagedChild, RestartTimer,
  Supervisor, create_runtime_supervisor, child_status, max_restarts_per_window, restart_delay_ms,
  refreshed,
}
use agent_metrics.Desktop.Supervisor.Turns.{
  spawned, ready_turn, mark_unexpected_exit, restart_timer_fires, is_live,
}
use agent_metrics.Desktop.Supervisor.Lifecycle.{
  Event, exits, restart_timer, becomes_ready, stop_end, start_begin, start_launch, Turn, event,
  launching, run, run_events, stop_begins, start_begins, start_launches,
}
use agent_metrics.Desktop.Supervisor.Sound.{IsSound}
use agent_metrics.Desktop.Supervisor.Quiet.{is_told}
use agent_metrics.Desktop.Supervisor.Launching.{run-IsSound}
use agent_metrics.Desktop.Supervisor.Stopping.{stop_lasts}
use agent_metrics.Desktop.Supervisor.Crashing.{IsRunning, recent_launches}
use agent_metrics.Desktop.Supervisor.Restarting.{crash_is_handled, crash_before_old_timer}

-- All three children start and become ready.
abbrev start_turns : List Turn
start_turns =
    launching start_begin
    ∷ launching (start_launch false (λ name. spawned (some 40)))
    ∷ event (becomes_ready watcher 1)
    ∷ event (becomes_ready parser 2)
    ∷ event (becomes_ready core 3)
    ∷ []

started : Supervisor
unfolding run
started = run start_turns create_runtime_supervisor

started-ready : refreshed started ≡ ready
unfolding started run refreshed start_launches start_begins ready_turn
started-ready = refl

-- The core crashes, `start` launches another at once, and that crashes before the timer.
restarted : Supervisor
unfolding run started
restarted =
    run
      (event (exits 1000 core 3 (some 1) none none)
        ∷ launching start_begin
        ∷ launching (start_launch false (λ name. spawned (some 41)))
        ∷ [])
      started

restarted-generation : restarted.generation ≡ 4
unfolding restarted run started start_launches start_begins mark_unexpected_exit ready_turn
restarted-generation = refl

-- The timer of the first crash is still there.
restarted-timer : restarted.restart_timers core ≡ some (record { generation = 3; delay = 1000 })
unfolding restarted run started start_launches start_begins mark_unexpected_exit ready_turn
restarted-timer = refl

-- A child that ends while its check is on the way is shown as ready.
late_check :
    (child_status
      (run
        (event (exits 1000 core 3 (some 1) none none) ∷ event (becomes_ready core 3) ∷ [])
        started)
      core).state
    ≡ ready
unfolding started run start_launches start_begins mark_unexpected_exit ready_turn child_status
late_check = refl

abbrev replaced : ManagedChild
replaced = record {
  pid = some 41;
  generation = 4;
  state = starting;
  intentional = false;
  exited = false;
  force_kill_requested = false;
}

abbrev old_timer : RestartTimer
old_timer = record { generation = 3; delay = 1000 }

replaced-IsRunning : IsRunning restarted core replaced
unfolding restarted run started start_launches start_begins mark_unexpected_exit ready_turn
replaced-IsRunning = record {
  found = refl;
  live = refl;
  unasked = refl;
  supervised = refl;
  unlatched = refl;
  owned = refl;
}

crash_before_old_timer_example :
    ((restart_timer_fires 2000 core
          (spawned none)
          (mark_unexpected_exit 1500 core 4 (some 1) none none restarted)).children
        core
      ≡ some (record replaced { exited = true; state = degraded }))
    × ((restart_timer_fires 2000 core
            (spawned none)
            (mark_unexpected_exit 1500 core 4 (some 1) none none restarted)).restart_timers
          core
        ≡ none)
    × (((restart_timer_fires 2000 core
            (spawned none)
            (mark_unexpected_exit 1500 core 4 (some 1) none none restarted)).trackers
          core).latched
        ≡ false)
crash_before_old_timer_example =
    crash_before_old_timer restarted core replaced old_timer 1500 2000 (some 1) none none
      (spawned none) replaced-IsRunning restarted-timer (omega arith)

abbrev first_core : ManagedChild
first_core = record {
  pid = some 40;
  generation = 3;
  state = ready;
  intentional = false;
  exited = false;
  force_kill_requested = false;
}

first-IsRunning : IsRunning started core first_core
unfolding started run start_launches start_begins ready_turn
first-IsRunning = record {
  found = refl;
  live = refl;
  unasked = refl;
  supervised = refl;
  unlatched = refl;
  owned = refl;
}

started-idle : started.restart_timers core ≡ none
unfolding started run start_launches start_begins ready_turn
started-idle = refl

crash_is_handled_example :
    ((leb max_restarts_per_window (length (recent_launches started core 1000)) ≡ true)
      × (((mark_unexpected_exit 1000 core 3 (some 1) none none started).trackers core).latched
          ≡ true)
      × ((mark_unexpected_exit 1000 core 3 (some 1) none none started).restart_timers core ≡ none))
    ⊎ ((leb max_restarts_per_window (length (recent_launches started core 1000)) ≡ false)
        × ((mark_unexpected_exit 1000 core 3 (some 1) none none started).restart_timers core
            ≡ some (record {
              generation = 3;
              delay = restart_delay_ms ((started.trackers core).consecutive_failures + 1);
            }))
        × ((restart_timer_fires 2000 core
                (spawned (some 42))
                (mark_unexpected_exit 1000 core 3 (some 1) none none started)).children
              core
            ≡ some (record {
              pid = some 42;
              generation = started.generation + 1;
              state = starting;
              intentional = false;
              exited = false;
              force_kill_requested = false;
            })))
crash_is_handled_example =
    crash_is_handled started core first_core 1000 2000 (some 42) (some 1) none none first-IsRunning
      started-idle

run-IsSound_example : IsSound (run start_turns create_runtime_supervisor)
run-IsSound_example = run-IsSound start_turns

abbrev late_events : List Event
late_events =
    exits 5000 watcher 1 none none none
    ∷ restart_timer 6000 watcher (spawned none)
    ∷ becomes_ready core 3
    ∷ stop_end
    ∷ []

stop_lasts_example :
    ((run_events late_events (stop_begins started)).state ≡ stopped)
    × ((name : ChildName)
        → (run_events late_events (stop_begins started)).restart_timers name ≡ none)
    × ((run_events late_events (stop_begins started)).generation ≡ started.generation)
    × ((name : ChildName)
        → (is_live ((run_events late_events (stop_begins started)).children name)
            && not (is_live (started.children name)))
          ≡ false)
    × ((name : ChildName)
        → is_told ((run_events late_events (stop_begins started)).children name) ≡ true)
stop_lasts_example = stop_lasts started late_events
