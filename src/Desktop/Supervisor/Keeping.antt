-- ===== src/Desktop/Supervisor/Keeping.antt =====
-- Launches, the ends of children and the restart timers keep a supervisor sound.
use agent_metrics.Prelude.{
  ℕ, ◌+◌, ◌≡◌, refl, String, true, false, not, ◌&&◌, ◌||◌, ◌==◌, leb, Option, none, some, [], ◌∷◌,
  arith, inl, inr, Option-cases, if_cases, ap, sym, length, length-append, if◌then◌else◌,
}
use agent_metrics.Desktop.Supervisor.State.{
  ChildName, watcher, parser, core, RunState, starting, stopped, degraded, managed, Tracker,
  ManagedChild, RestartTimer, Supervisor, set_at, refresh_runtime_state, set_tracker, is_starting,
  max_restarts_per_window,
}
use agent_metrics.Desktop.Supervisor.Turns.{
  Spawn, spawned, spawn_failed, is_child, with_record, update_child, exit_child, schedule_restart,
  trim_failure_window, launch_child, restart_now, with_failure, mark_unexpected_exit,
  restart_timer_fires,
}
use agent_metrics.Desktop.Supervisor.Sound.{
  IsSound, is_waiting, refresh-IsSound, tracker-IsSound, child-IsSound, timer-IsSound, trimmed-few,
  set_tracker-same, schedule-IsSound,
}

pub with_record-IsSound :
    (s : Supervisor) (name : ChildName) (generation : ℕ) (f : ManagedChild → ManagedChild)
    → IsSound s
    → ((c : ManagedChild) → is_waiting (some c) ≡ false → is_waiting (some (f c)) ≡ false)
    → IsSound (with_record name generation f s)
with_record-IsSound s name generation f v keeps =
    child-IsSound s name (update_child f (s.children name) generation) v
      (updated (s.children name) (v.settled name))
  where
    updated :
        (o : Option ManagedChild)
        → is_waiting o ≡ false
        → is_waiting (update_child f o generation) ≡ false
    updated none h = refl
    updated (some c) h =
        if_cases (λ d. is_waiting (some d) ≡ false) (c.generation == generation) (λ _. keeps c h)
          (λ _. h)

-- A change of a tracker in what the invariant does not read.
pub same_tracker-IsSound :
    (s : Supervisor) (name : ChildName) (t : Tracker)
    → IsSound s
    → t.failure_timestamps ≡ (s.trackers name).failure_timestamps
    → t.latched ≡ (s.trackers name).latched
    → IsSound (set_tracker name t s)
same_tracker-IsSound s name t v times latch =
    tracker-IsSound s name t v (omega (arith, v.bounded name, ap length times))
      (ground (arith, v.latch name, latch))

pub launch_child-IsSound :
    (name : ChildName) (pid : Option ℕ) (s : Supervisor)
    → IsSound s
    → IsSound (launch_child name pid s)
unfolding launch_child
launch_child-IsSound name pid s v =
    let t = record (s.trackers name) { ownership = managed } in
    let child : Option ManagedChild = some (record {
      pid = pid;
      generation = s.generation + 1;
      state = starting;
      intentional = false;
      exited = false;
      force_kill_requested = false;
    }) in
    let w = child-IsSound _ name child (same_tracker-IsSound s name t v refl refl) refl in
    record { bounded = w.bounded; quiet = w.quiet; latch = w.latch; settled = w.settled }

pub state-IsSound :
    (s : Supervisor) (state : RunState) → IsSound s → IsSound (record s { state = state })
state-IsSound s state v = record {
  bounded = v.bounded;
  quiet = v.quiet;
  latch = v.latch;
  settled = v.settled;
}

exit_child-IsSound :
    (now : ℕ) (name : ChildName) (child : ManagedChild) (code : Option ℕ)
    (signal error : Option String) (s : Supervisor)
    → IsSound s
    → IsSound (exit_child now name child code signal error s)
exit_child-IsSound now name child code signal error s v =
    let expected = child.intentional || s.stopping in
    let cleared = record (s.trackers name) { stable_timer = none } in
    let gone : Option ManagedChild =
      some (record child { exited = true; state = if expected then stopped else degraded }) in
    let w : IsSound
        (record (set_tracker name cleared s) { children = set_at s.children name gone }) =
      child-IsSound _ name gone (same_tracker-IsSound s name cleared v refl refl)
        (if_cases (λ r. (true && is_starting r) ≡ false) expected (λ _. refl) (λ _. refl)) in
    if_cases IsSound expected (λ _. refresh-IsSound _ w)
      (λ _. schedule-IsSound now name child.generation _ (
        state-IsSound _ degraded (
          same_tracker-IsSound _ name
            (record (with_failure error cleared) {
              last_exit = some (record { code = code; signal = signal; at = now });
            })
            w (ap (λ t. t.failure_timestamps) (sym (set_tracker-same s name cleared)))
            (ap (λ t. t.latched) (sym (set_tracker-same s name cleared))))))

pub exits-IsSound :
    (now : ℕ) (name : ChildName) (generation : ℕ) (code : Option ℕ) (signal error : Option String)
    (s : Supervisor)
    → IsSound s
    → IsSound (mark_unexpected_exit now name generation code signal error s)
unfolding mark_unexpected_exit
exits-IsSound now name generation code signal error s v = elim (Option-cases (s.children name)) [
  | inl missing ↦ rw (missing, mark_unexpected_exit) v
  | inr (child, found) ↦
      rw (found, mark_unexpected_exit)
        (if_cases IsSound (child.exited || not (child.generation == generation)) (λ _. v)
          (λ _. exit_child-IsSound now name child code signal error s v))
]

-- After the launch was counted.
spawn-IsSound :
    (now : ℕ) (name : ChildName) (generation : ℕ) (spawn : Spawn) (counted : Supervisor)
    → IsSound counted
    → IsSound (elim spawn [
      | spawned pid ↦ refresh_runtime_state (launch_child name pid counted)
      | spawn_failed message ↦ refresh_runtime_state (
          schedule_restart now name generation
            (set_tracker name (with_failure (some message) (counted.trackers name)) counted))
    ])
spawn-IsSound now name generation (spawned pid) counted v =
    refresh-IsSound _ (launch_child-IsSound name pid counted v)
spawn-IsSound now name generation (spawn_failed message) counted v = refresh-IsSound _ (
    schedule-IsSound now name generation _ (
      same_tracker-IsSound counted name (with_failure (some message) (counted.trackers name)) v refl
        refl))

-- A full window is latched, or the launch is counted.
restart_now-IsSound :
    (now : ℕ) (name : ChildName) (generation : ℕ) (spawn : Spawn) (s : Supervisor)
    → IsSound s
    → s.restart_timers name ≡ none
    → IsSound (restart_now now name generation spawn s)
restart_now-IsSound now name generation spawn s v idle =
    let trimmed = trim_failure_window now (s.trackers name) in
    let few = trimmed-few now (s.trackers name) in
    if_cases IsSound
      (s.stopping || (not (is_child (s.children name) generation) || (s.trackers name).latched))
      (λ _. v)
      (λ on.
        if_cases IsSound (leb max_restarts_per_window (length trimmed.failure_timestamps))
          (λ full. refresh-IsSound _ (
            tracker-IsSound s name (record trimmed { latched = true }) v
              (omega (arith, v.bounded name, few)) (rw (idle) refl)))
          (λ room. spawn-IsSound now name generation spawn _ (
            tracker-IsSound s name _ v
              (ground (arith, length-append trimmed.failure_timestamps (now ∷ [])))
              (v.latch name))))

pub fires-IsSound :
    (now : ℕ) (name : ChildName) (spawn : Spawn) (s : Supervisor)
    → IsSound s
    → IsSound (restart_timer_fires now name spawn s)
unfolding restart_timer_fires
fires-IsSound now name spawn s v = elim (Option-cases (s.restart_timers name)) [
  | inl missing ↦ rw (missing, restart_timer_fires) v
  | inr (timer, found) ↦
      rw (found, restart_timer_fires)
        (restart_now-IsSound now name timer.generation spawn _
          (timer-IsSound s name none v (ground arith) (ground arith))
          (set_none s.restart_timers name))
]
  where
    set_none : (f : ChildName → Option RestartTimer) (n : ChildName) → set_at f n none n ≡ none
    set_none f watcher = refl
    set_none f parser = refl
    set_none f core = refl
