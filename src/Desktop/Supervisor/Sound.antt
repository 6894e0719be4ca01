-- ===== src/Desktop/Supervisor/Sound.antt =====
-- What holds of a supervisor between any two turns.
use agent_metrics.Prelude.{
  ℕ, ◌≡◌, ◌≤◌, refl, Bool, true, false, ◌&&◌, ◌||◌, leb, Option, none, some, arith, if_cases, subst,
  is_some, length, length-filter-le,
}
use agent_metrics.Desktop.Supervisor.State.{
  ChildName, watcher, parser, core, Tracker, ManagedChild, RestartTimer, Supervisor, set_at,
  same_name, eq_of_same_name, refresh_runtime_state, set_tracker, is_starting, is_external,
  max_restarts_per_window,
}
use agent_metrics.Desktop.Supervisor.Turns.{schedule_restart, trim_failure_window}

-- It has exited, and its state is that of a child that starts.
abbrev pub is_waiting : Option ManagedChild → Bool
is_waiting none = false
is_waiting (some child) = child.exited && is_starting child.state

pub record IsSound (s : Supervisor) : Type 0 where
  pub bounded : (name : ChildName) → length (s.trackers name).failure_timestamps ≤ 5
  pub quiet : (name : ChildName) → (s.stopping && is_some (s.restart_timers name)) ≡ false
  pub latch :
      (name : ChildName) → ((s.trackers name).latched && is_some (s.restart_timers name)) ≡ false
  pub settled : (name : ChildName) → is_waiting (s.children name) ≡ false

-- A property of all entries, after one was set.
set_at-all {ℓ κ} :
    {A : Type ℓ} (P : ChildName → A → Type κ) (f : ChildName → A) (name : ChildName) (value : A)
    → P name value
    → ((n : ChildName) → P n (f n))
    → (n : ChildName) → P n (set_at f name value n)
set_at-all P f name value here there n =
    if_cases (P n) (same_name name n) (λ e. subst (λ m. P m value) (eq_of_same_name name n e) here)
      (λ _. there n)

pub refresh-IsSound : (s : Supervisor) → IsSound s → IsSound (refresh_runtime_state s)
refresh-IsSound s v = record {
  bounded = v.bounded;
  quiet = v.quiet;
  latch = v.latch;
  settled = v.settled;
}

pub tracker-IsSound :
    (s : Supervisor) (name : ChildName) (tracker : Tracker)
    → IsSound s
    → length tracker.failure_timestamps ≤ 5
    → (tracker.latched && is_some (s.restart_timers name)) ≡ false
    → IsSound (set_tracker name tracker s)
tracker-IsSound s name tracker v few open_ = record {
  bounded =
      set_at-all (λ n t. length t.failure_timestamps ≤ 5) s.trackers name tracker few v.bounded;
  quiet = v.quiet;
  latch =
      set_at-all (λ n t. (t.latched && is_some (s.restart_timers n)) ≡ false) s.trackers name
        tracker open_ v.latch;
  settled = v.settled;
}

pub child-IsSound :
    (s : Supervisor) (name : ChildName) (child : Option ManagedChild)
    → IsSound s
    → is_waiting child ≡ false
    → IsSound (record s { children = set_at s.children name child })
child-IsSound s name child v h = record {
  bounded = v.bounded;
  quiet = v.quiet;
  latch = v.latch;
  settled = set_at-all (λ n c. is_waiting c ≡ false) s.children name child h v.settled;
}

pub timer-IsSound :
    (s : Supervisor) (name : ChildName) (timer : Option RestartTimer)
    → IsSound s
    → (s.stopping && is_some timer) ≡ false
    → ((s.trackers name).latched && is_some timer) ≡ false
    → IsSound (record s { restart_timers = set_at s.restart_timers name timer })
timer-IsSound s name timer v h k = record {
  bounded = v.bounded;
  quiet =
      set_at-all (λ n t. (s.stopping && is_some t) ≡ false) s.restart_timers name timer h v.quiet;
  latch =
      set_at-all (λ n t. ((s.trackers n).latched && is_some t) ≡ false) s.restart_timers name timer
        k v.latch;
  settled = v.settled;
}

pub trimmed-few :
    (now : ℕ) (t : Tracker)
    → length (trim_failure_window now t).failure_timestamps ≤ length t.failure_timestamps
trimmed-few now t = length-filter-le _ t.failure_timestamps

pub set_tracker-same :
    (s : Supervisor) (name : ChildName) (t : Tracker) → (set_tracker name t s).trackers name ≡ t
set_tracker-same s watcher t = refl
set_tracker-same s parser t = refl
set_tracker-same s core t = refl

pub schedule-IsSound :
    (now : ℕ) (name : ChildName) (generation : ℕ) (s : Supervisor)
    → IsSound s
    → IsSound (schedule_restart now name generation s)
unfolding schedule_restart
schedule-IsSound now name generation s v =
    let trimmed = trim_failure_window now (s.trackers name) in
    let few = trimmed-few now (s.trackers name) in
    let off =
      s.stopping
      || (is_some (s.restart_timers name)
          || ((s.trackers name).latched || is_external (s.trackers name).ownership)) in
    if_cases IsSound off (λ _. v)
      (λ on.
        if_cases IsSound (leb max_restarts_per_window (length trimmed.failure_timestamps))
          (λ full. refresh-IsSound _ (
            tracker-IsSound s name (record trimmed { latched = true }) v
              (omega (arith, v.bounded name, few)) (ground arith)))
          (λ room.
            timer-IsSound (set_tracker name trimmed s) name _
              (tracker-IsSound s name trimmed v (omega (arith, v.bounded name, few)) (v.latch name))
              (ground arith) (rw (set_tracker-same s name trimmed) (ground arith))))
