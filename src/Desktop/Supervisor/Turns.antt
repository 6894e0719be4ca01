-- ===== src/Desktop/Supervisor/Turns.antt =====
-- What the supervisor does between two waits: the callbacks of the children and of the timers, and
-- the parts into which `start`, `restart`, `stop` and `waitForReady` fall at their awaits. A text of
-- an error is given as `sanitizeErrorSummary` leaves it.
use agent_metrics.Prelude.{
  ℕ, ◌+◌, ◌-◌, String, Bool, true, false, not, ◌&&◌, ◌||◌, ◌==◌, leb, Option, none, some, [], ◌∷◌,
  ◌++◌, length, filter, if◌then◌else◌, is_some,
}
use agent_metrics.Desktop.Supervisor.State.{
  ChildName, managed, starting, ready, degraded, stopped, Tracker, ManagedChild, Supervisor,
  failure_window_ms, max_restarts_per_window, restart_delay_ms, is_external, is_ready, set_at,
  set_tracker, refresh_runtime_state,
}

-- What `spawn` does: a child with its pid, or a throw.
pub data Spawn : Type 0 where
  spawned : Option ℕ → Spawn
  spawn_failed : String → Spawn

abbrev pub reset_failure_state : Bool → Tracker → Tracker
reset_failure_state clear_exit t = record t {
  stable_timer = none;
  failure_timestamps = [];
  consecutive_failures = 0;
  latched = false;
  force_kill_requested = false;
  log_write_failed = false;
  last_exit = if clear_exit then none else t.last_exit;
  error_summary = if clear_exit then none else t.error_summary;
}

abbrev pub trim_failure_window : ℕ → Tracker → Tracker
trim_failure_window now t = record t {
  failure_timestamps = filter (λ at. leb (now - failure_window_ms) at) t.failure_timestamps;
}

abbrev pub with_failure : Option String → Tracker → Tracker
with_failure summary t = record t {
  error_summary = summary;
  consecutive_failures = t.consecutive_failures + 1;
}

-- The record of the generation, if it is the child of the name.
abbrev pub is_child : Option ManagedChild → ℕ → Bool
is_child none generation = false
is_child (some child) generation = child.generation == generation

abbrev pub is_live : Option ManagedChild → Bool
is_live none = false
is_live (some child) = not child.exited

abbrev pub is_some_ready : Option ManagedChild → Bool
is_some_ready none = false
is_some_ready (some child) = is_ready child.state

-- It has not exited, and was not killed yet.
abbrev pub is_killable : Option ManagedChild → Bool
is_killable none = false
is_killable (some child) = not child.exited && not child.force_kill_requested

abbrev pub update_child :
    (ManagedChild → ManagedChild) → Option ManagedChild → ℕ → Option ManagedChild
update_child f none generation = none
update_child f (some child) generation =
    some (if child.generation == generation then f child else child)

abbrev pub with_record : ChildName → ℕ → (ManagedChild → ManagedChild) → Supervisor → Supervisor
with_record name generation f s = record s {
  children = set_at s.children name (update_child f (s.children name) generation);
}

-- The window is trimmed; a full one latches the child, or else a timer is set.
unfoldable pub schedule_restart : ℕ → ChildName → ℕ → Supervisor → Supervisor
schedule_restart now name generation s =
    if s.stopping
      || (is_some (s.restart_timers name)
          || ((s.trackers name).latched || is_external (s.trackers name).ownership))
    then s
    else let trimmed = trim_failure_window now (s.trackers name) in
      if leb max_restarts_per_window (length trimmed.failure_timestamps)
      then refresh_runtime_state (set_tracker name (record trimmed { latched = true }) s)
      else record (set_tracker name trimmed s) {
        restart_timers = set_at s.restart_timers name (
            some (record {
              generation = generation;
              delay = restart_delay_ms trimmed.consecutive_failures;
            }));
      }

-- `markUnexpectedExit` for a child of the name that has not exited.
abbrev pub exit_child :
    ℕ
    → ChildName
    → ManagedChild
    → Option ℕ
    → Option String
    → Option String
    → Supervisor
    → Supervisor
exit_child now name child code signal error s =
    let expected = child.intentional || s.stopping in
    let cleared = record (s.trackers name) { stable_timer = none } in
    let gone = record (set_tracker name cleared s) {
      children =
          set_at s.children name
            (some (record child { exited = true; state = if expected then stopped else degraded }));
    } in
    if expected
    then refresh_runtime_state gone
    else schedule_restart now name child.generation
        (record (set_tracker name
          (record (with_failure error cleared) {
            last_exit = some (record { code = code; signal = signal; at = now });
          })
          gone) { state = degraded })

-- The record is that of the generation.
unfoldable pub mark_unexpected_exit :
    ℕ → ChildName → ℕ → Option ℕ → Option String → Option String → Supervisor → Supervisor
unfolding schedule_restart
mark_unexpected_exit now name generation code signal error s = elim (s.children name) [
  | none ↦ s
  | some child ↦
      if child.exited || not (child.generation == generation)
      then s
      else exit_child now name child code signal error s
]

-- The time of an automatic launch is counted before `spawn` is called.
abbrev pub count_launch : ℕ → ChildName → Supervisor → Supervisor
count_launch now name s =
    let trimmed = trim_failure_window now (s.trackers name) in
    set_tracker name
      (record trimmed { failure_timestamps = trimmed.failure_timestamps ++ now ∷ [] }) s

-- The rest of `launchChild`, once `spawn` has returned.
unfoldable pub launch_child : ChildName → Option ℕ → Supervisor → Supervisor
launch_child name pid s =
    record (set_tracker name (record (s.trackers name) { ownership = managed }) s) {
      generation = s.generation + 1;
      children = set_at s.children name (
          some (record {
            pid = pid;
            generation = s.generation + 1;
            state = starting;
            intentional = false;
            exited = false;
            force_kill_requested = false;
          }));
    }

-- The callback of a restart timer, whose handle is gone.
abbrev pub restart_now : ℕ → ChildName → ℕ → Spawn → Supervisor → Supervisor
restart_now now name generation spawn s =
    if s.stopping || (not (is_child (s.children name) generation) || (s.trackers name).latched)
    then s
    else let trimmed = trim_failure_window now (s.trackers name) in
      if leb max_restarts_per_window (length trimmed.failure_timestamps)
      then refresh_runtime_state (set_tracker name (record trimmed { latched = true }) s)
      else let counted = count_launch now name s in
        elim spawn [
          | spawned pid ↦ refresh_runtime_state (launch_child name pid counted)
          | spawn_failed message ↦ refresh_runtime_state (
              schedule_restart now name generation
                (set_tracker name (with_failure (some message) (counted.trackers name)) counted))
        ]

unfoldable pub restart_timer_fires : ℕ → ChildName → Spawn → Supervisor → Supervisor
unfolding schedule_restart launch_child
restart_timer_fires now name spawn s = elim (s.restart_timers name) [
  | none ↦ s
  | some timer ↦
      restart_now now name timer.generation spawn
        (record s { restart_timers = set_at s.restart_timers name none })
]

-- The callback of a stable timer. Its handle stays, and clearing it again does nothing.
unfoldable pub stable_timer_fires : ChildName → Supervisor → Supervisor
stable_timer_fires name s = elim (s.trackers name).stable_timer [
  | none ↦ s
  | some generation ↦
      let fired = record (s.trackers name) { stable_timer = none } in
      set_tracker name
        (if is_child (s.children name) generation
            && (is_live (s.children name) && is_some_ready (s.children name))
          then reset_failure_state false fired
          else fired)
        s
]

-- `waitForReady`, when the check has answered that the record is ready.
unfoldable pub ready_turn : ChildName → ℕ → Supervisor → Supervisor
ready_turn name generation s = refresh_runtime_state (
    set_tracker name
      (record (s.trackers name) { error_summary = none; stable_timer = some generation })
      (with_record name generation (λ child. record child { state = ready }) s))

-- `stopChild` up to its wait.
abbrev pub stop_child : ManagedChild → ManagedChild
stop_child child = if child.exited then child else record child { intentional = true }

-- `waitForReady`, when its time is over, up to the end of the child; and after that.
unfoldable pub readiness_times_out : ChildName → ℕ → Supervisor → Supervisor
readiness_times_out name generation s =
    with_record name generation stop_child
      (set_tracker name (record (s.trackers name) { error_summary = some "Readiness timeout" }) s)

unfoldable pub give_up : ℕ → ChildName → ℕ → Supervisor → Supervisor
unfolding schedule_restart
give_up now name generation s =
    let tracker = s.trackers name in
    refresh_runtime_state (
      schedule_restart now name generation (
        with_record name generation (λ child. record child { state = degraded })
          (set_tracker name
            (record tracker { consecutive_failures = tracker.consecutive_failures + 1 }) s)))

-- The timer of `stopChild`: the child is killed by force.
unfoldable pub stop_times_out : ChildName → ℕ → Supervisor → Supervisor
stop_times_out name generation s =
    if is_child (s.children name) generation && is_killable (s.children name)
    then set_tracker name (record (s.trackers name) { force_kill_requested = true })
        (with_record name generation
          (λ child. record child { force_kill_requested = true; exited = true; state = stopped }) s)
    else s

-- `markLogWriteFailed`
unfoldable pub log_write_fails : ChildName → String → Supervisor → Supervisor
log_write_fails name message s =
    let tracker = s.trackers name in
    refresh_runtime_state (
      set_tracker name
        (record tracker {
          error_summary =
              if is_some tracker.error_summary then tracker.error_summary else some message;
          log_write_failed = true;
        })
        s)
