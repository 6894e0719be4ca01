-- ===== src/Desktop/Supervisor/State.antt =====
-- The state of `createRuntimeSupervisor` and the status that it reports. A tracker belongs to a
-- name, as `trackerFor` makes it; a record is known by its generation.
use agent_metrics.Prelude.{
  ℕ, ◌≡◌, refl, ◌*◌, String, Bool, true, false, not, ◌&&◌, ◌||◌, ◌==◌, leb, Option, none, some,
  List, [], length, if◌then◌else◌, is_some, or_else,
}

pub data ChildName : Type 0 where
  watcher parser core : ChildName

pub data Ownership : Type 0 where
  managed external unowned : Ownership

-- `SupervisorState`, which is also that of a child.
pub data RunState : Type 0 where
  starting ready degraded stopped : RunState

pub record LastExit : Type 0 where
  pub code : Option ℕ
  pub signal : Option String
  pub at : ℕ

-- `stable_timer` is the generation for which the timer runs.
pub record Tracker : Type 0 where
  pub ownership : Ownership
  pub failure_timestamps : List ℕ
  pub consecutive_failures : ℕ
  pub latched : Bool
  pub last_exit : Option LastExit
  pub error_summary : Option String
  pub stable_timer : Option ℕ
  pub force_kill_requested : Bool
  pub log_write_failed : Bool

pub record ManagedChild : Type 0 where
  pub pid : Option ℕ
  pub generation : ℕ
  pub state : RunState
  pub intentional : Bool
  pub exited : Bool
  pub force_kill_requested : Bool

-- The record for which a restart is planned, and after how long.
pub record RestartTimer : Type 0 where
  pub generation : ℕ
  pub delay : ℕ

pub record Supervisor : Type 0 where
  pub trackers : ChildName → Tracker
  pub children : ChildName → Option ManagedChild
  pub restart_timers : ChildName → Option RestartTimer
  pub state : RunState
  pub stopping : Bool
  pub generation : ℕ

abbrev pub new_tracker : Tracker
new_tracker = record {
  ownership = unowned;
  failure_timestamps = [];
  consecutive_failures = 0;
  latched = false;
  last_exit = none;
  error_summary = none;
  stable_timer = none;
  force_kill_requested = false;
  log_write_failed = false;
}

abbrev pub create_runtime_supervisor : Supervisor
create_runtime_supervisor = record {
  trackers = λ name. new_tracker;
  children = λ name. none;
  restart_timers = λ name. none;
  state = stopped;
  stopping = false;
  generation = 0;
}

abbrev pub failure_window_ms : ℕ
failure_window_ms = 10 * 60_000

abbrev pub max_restarts_per_window : ℕ
max_restarts_per_window = 5

-- `RESTART_DELAYS_MS` at the number of failures in a row.
abbrev pub restart_delay_ms : ℕ → ℕ
restart_delay_ms failures =
    if leb failures 1
    then 1000
    else if failures == 2
    then 2000
    else if failures == 3
    then 5000
    else if failures == 4
    then 10_000
    else 30_000

abbrev pub same_name : ChildName → ChildName → Bool
same_name watcher watcher = true
same_name parser parser = true
same_name core core = true
same_name _ _ = false

pub eq_of_same_name : (a b : ChildName) → same_name a b ≡ true → a ≡ b
eq_of_same_name watcher watcher h = refl
eq_of_same_name parser parser h = refl
eq_of_same_name core core h = refl
eq_of_same_name watcher parser h = cc
eq_of_same_name watcher core h = cc
eq_of_same_name parser watcher h = cc
eq_of_same_name parser core h = cc
eq_of_same_name core watcher h = cc
eq_of_same_name core parser h = cc

abbrev pub is_external : Ownership → Bool
is_external external = true
is_external _ = false

abbrev pub is_ready : RunState → Bool
is_ready ready = true
is_ready _ = false

abbrev pub is_stopped : RunState → Bool
is_stopped stopped = true
is_stopped _ = false

abbrev pub is_degraded : RunState → Bool
is_degraded degraded = true
is_degraded _ = false

abbrev pub is_starting : RunState → Bool
is_starting starting = true
is_starting _ = false

-- `map.set(name, value)`
abbrev pub set_at {ℓ} : {A : Type ℓ} → (ChildName → A) → ChildName → A → ChildName → A
set_at f name value other = if same_name name other then value else f other

abbrev pub set_tracker : ChildName → Tracker → Supervisor → Supervisor
set_tracker name tracker s = record s { trackers = set_at s.trackers name tracker }

-- `childStatus`, of which the state, the pid and the summary depend on the record.
pub record ChildRuntimeStatus : Type 0 where
  pub ownership : Ownership
  pub state : RunState
  pub pid : Option ℕ
  pub restart_count : ℕ
  pub last_exit : Option LastExit
  pub error_summary : Option String

abbrev status_of : Tracker → RunState → Option ℕ → Option String → ChildRuntimeStatus
status_of tracker state pid summary = record {
  ownership = tracker.ownership;
  state = state;
  pid = pid;
  restart_count = length tracker.failure_timestamps;
  last_exit = tracker.last_exit;
  error_summary = summary;
}

abbrev managed_status : Tracker → Option ManagedChild → ChildRuntimeStatus
managed_status tracker none = status_of tracker stopped none tracker.error_summary
managed_status tracker (some child) =
    status_of tracker
      (if (child.exited && is_some tracker.error_summary) || tracker.log_write_failed
        then degraded
        else child.state)
      (if child.exited then none else child.pid)
      (if tracker.force_kill_requested
        then some (or_else tracker.error_summary "Force-killed after graceful shutdown timeout")
        else tracker.error_summary)

unfoldable pub child_status : Supervisor → ChildName → ChildRuntimeStatus
child_status s name =
    let tracker = s.trackers name in
    if is_external tracker.ownership
    then status_of tracker ready none tracker.error_summary
    else managed_status tracker (s.children name)

abbrev every : (ChildRuntimeStatus → Bool) → Supervisor → Bool
every test s =
    test (child_status s watcher) && (test (child_status s parser) && test (child_status s core))

abbrev any : (ChildRuntimeStatus → Bool) → Supervisor → Bool
any test s =
    test (child_status s watcher) || (test (child_status s parser) || test (child_status s core))

unfoldable pub refreshed : Supervisor → RunState
unfolding child_status
refreshed s =
    if s.stopping || every (λ c. is_stopped c.state && not (is_external c.ownership)) s
    then stopped
    else if any (λ c. is_degraded c.state) s
    then degraded
    else if any (λ c. is_starting c.state) s
    then starting
    else if every (λ c. is_ready c.state) s
    then ready
    else degraded

abbrev pub refresh_runtime_state : Supervisor → Supervisor
refresh_runtime_state s = record s { state = refreshed s }

-- The two parts of `getStatus`.
abbrev pub get_runtime_status : Supervisor → RunState × (ChildName → ChildRuntimeStatus)
get_runtime_status s = (refreshed s, child_status s)
