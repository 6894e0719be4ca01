-- ===== src/Desktop/Supervisor/Lifecycle.antt =====
-- `startInternal`, `restartInternal` and `stopInternal`, cut at their awaits, and all that can happen
-- to a supervisor.
use agent_metrics.Prelude.{
  ℕ, String, Bool, true, false, not, ◌&&◌, Option, none, some, List, [], ◌∷◌, if◌then◌else◌,
  is_some,
}
use agent_metrics.Desktop.Supervisor.State.{
  ChildName, watcher, parser, core, Ownership, managed, external, unowned, starting, stopped,
  ManagedChild, Supervisor, is_external, is_ready, is_stopped, set_at, set_tracker,
  refresh_runtime_state,
}
use agent_metrics.Desktop.Supervisor.Turns.{
  Spawn, spawned, spawn_failed, reset_failure_state, with_failure, is_live, launch_child,
  stop_child, mark_unexpected_exit, restart_timer_fires, stable_timer_fires, ready_turn,
  readiness_times_out, give_up, stop_times_out, log_write_fails,
}

-- Not a child that has exited or is not ready.
abbrev pub is_settled : Option ManagedChild → Bool
is_settled none = true
is_settled (some child) = not child.exited && is_ready child.state

abbrev pub map_child : (ManagedChild → ManagedChild) → Option ManagedChild → Option ManagedChild
map_child f none = none
map_child f (some child) = some (f child)

abbrev pub reset_all : Supervisor → Supervisor
reset_all s = record s { trackers = λ name. reset_failure_state true (s.trackers name) }

-- Up to the check of an external runtime.
unfoldable pub start_begins : Supervisor → Supervisor
start_begins s =
    if is_ready s.state
      && (is_settled (s.children watcher)
          && (is_settled (s.children parser) && is_settled (s.children core)))
    then refresh_runtime_state s
    else let reset = if is_stopped s.state then reset_all s else s in
      record reset { stopping = false; state = starting }

-- The tracker of the core, after that check.
abbrev pub own_core : Bool → Supervisor → Supervisor
own_core healthy s =
    let tracker = s.trackers core in
    if healthy && not (is_some (s.children core))
    then set_tracker core (record tracker { ownership = external; error_summary = none }) s
    else if not healthy && is_external tracker.ownership
    then set_tracker core (record tracker { ownership = unowned }) s
    else s

abbrev pub launch_or_fail : ChildName → Spawn → Supervisor → Supervisor
launch_or_fail name (spawned pid) s = launch_child name pid s
launch_or_fail name (spawn_failed message) s =
    set_tracker name
      (record (with_failure (some message) (s.trackers name)) { ownership = managed }) s

-- One round of the loop over the names.
unfoldable pub start_child : ChildName → Spawn → Supervisor → Supervisor
unfolding launch_child
start_child name spawn s = if is_live (s.children name) then s else launch_or_fail name spawn s

-- The loop, up to the wait for the children.
unfoldable pub start_launches : Bool → (ChildName → Spawn) → Supervisor → Supervisor
unfolding start_child
start_launches healthy spawn s =
    let first =
      start_child parser (spawn parser)
        (start_child watcher (spawn watcher) (own_core healthy s)) in
    if is_external (first.trackers core).ownership
    then first
    else start_child core (spawn core) first

-- Up to the wait for the end of the child.
unfoldable pub restart_begins : ChildName → Supervisor → Supervisor
restart_begins name s = record (set_tracker name (reset_failure_state true (s.trackers name)) s) {
  stopping = false;
  restart_timers = set_at s.restart_timers name none;
  children = set_at s.children name (map_child stop_child (s.children name));
}

abbrev pub is_core : ChildName → Bool
is_core core = true
is_core _ = false

-- After it, up to the check of an external runtime where there is one.
unfoldable pub restart_removes : ChildName → Supervisor → Supervisor
restart_removes name s = record s { children = set_at s.children name none }

-- After that, with its answer.
unfoldable pub restart_launches : ChildName → Bool → Spawn → Supervisor → Supervisor
unfolding launch_child
restart_launches name healthy spawn s =
    if is_core name && healthy
    then refresh_runtime_state
        (set_tracker name (record (s.trackers name) { ownership = external }) s)
    else let owned =
        record (set_tracker name (record (s.trackers name) { ownership = managed }) s) {
          state = starting;
        } in
      elim spawn [
        | spawned pid ↦ launch_child name pid owned
        | spawn_failed message ↦
            refresh_runtime_state
              (set_tracker name (with_failure (some message) (owned.trackers name)) owned)
      ]

-- Up to the wait for the ends of all children; and after it.
unfoldable pub stop_begins : Supervisor → Supervisor
stop_begins s = record s {
  stopping = true;
  restart_timers = λ name. none;
  state = stopped;
  children = λ name. map_child stop_child (s.children name);
}

abbrev pub unown : Ownership → Ownership
unown external = unowned
unown ownership = ownership

unfoldable pub stop_ends : Supervisor → Supervisor
stop_ends s = refresh_runtime_state (record s {
  trackers = λ name. record (s.trackers name) {
    stable_timer = none;
    ownership = unown (s.trackers name).ownership;
  };
})

-- Callbacks and continuations that belong to no call of `start` or `restart`; the record of a child
-- is named by its generation. Any of them may come at any time.
pub data Event : Type 0 where
  exits : ℕ → ChildName → ℕ → Option ℕ → Option String → Option String → Event
  restart_timer : ℕ → ChildName → Spawn → Event
  stable_timer : ChildName → Event
  becomes_ready : ChildName → ℕ → Event
  readiness_timeout : ChildName → ℕ → Event
  gives_up : ℕ → ChildName → ℕ → Event
  stop_timeout : ChildName → ℕ → Event
  log_failure : ChildName → String → Event
  finishes : Event
  stop_begin : Event
  stop_end : Event

-- The parts of the calls that launch.
pub data Launch : Type 0 where
  start_begin : Launch
  start_launch : Bool → (ChildName → Spawn) → Launch
  restart_begin : ChildName → Launch
  restart_remove : ChildName → Launch
  restart_launch : ChildName → Bool → Spawn → Launch

unfoldable pub handle : Event → Supervisor → Supervisor
handle (exits now name generation code signal error) s =
    mark_unexpected_exit now name generation code signal error s
handle (restart_timer now name spawn) s = restart_timer_fires now name spawn s
handle (stable_timer name) s = stable_timer_fires name s
handle (becomes_ready name generation) s = ready_turn name generation s
handle (readiness_timeout name generation) s = readiness_times_out name generation s
handle (gives_up now name generation) s = give_up now name generation s
handle (stop_timeout name generation) s = stop_times_out name generation s
handle (log_failure name message) s = log_write_fails name message s
handle finishes s = refresh_runtime_state s
handle stop_begin s = stop_begins s
handle stop_end s = stop_ends s

unfoldable pub launch : Launch → Supervisor → Supervisor
launch start_begin s = start_begins s
launch (start_launch healthy spawn) s = start_launches healthy spawn s
launch (restart_begin name) s = restart_begins name s
launch (restart_remove name) s = restart_removes name s
launch (restart_launch name healthy spawn) s = restart_launches name healthy spawn s

-- Any sequence of turns.
pub data Turn : Type 0 where
  event : Event → Turn
  launching : Launch → Turn

unfoldable pub run_events : List Event → Supervisor → Supervisor
unfolding handle
run_events [] s = s
run_events (e ∷ es) s = run_events es (handle e s)

unfoldable pub run : List Turn → Supervisor → Supervisor
unfolding handle launch
run [] s = s
run (event e ∷ ts) s = run ts (handle e s)
run (launching l ∷ ts) s = run ts (launch l s)
