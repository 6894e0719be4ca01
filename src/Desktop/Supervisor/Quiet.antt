-- ===== src/Desktop/Supervisor/Quiet.antt =====
-- Nothing is launched after a stop.
use agent_metrics.Prelude.{
  ℕ, ◌≡◌, refl, String, Bool, true, false, not, ◌&&◌, ◌||◌, ◌==◌, Option, none, some, arith, inl,
  inr, Option-cases, if_cases, sym, subst,
}
use agent_metrics.Desktop.Supervisor.State.{
  ChildName, stopped, Tracker, ManagedChild, Supervisor, set_at, same_name, eq_of_same_name,
  refreshed, refresh_runtime_state, set_tracker,
}
use agent_metrics.Desktop.Supervisor.Turns.{
  Spawn, is_live, with_record, update_child, exit_child, schedule_restart, mark_unexpected_exit,
  restart_timer_fires, stable_timer_fires,
}

-- It has exited or was told to.
abbrev pub is_told : Option ManagedChild → Bool
is_told none = true
is_told (some child) = child.exited || child.intentional

-- A supervisor that stops, against the one that was told to.
pub record IsQuiet (s t : Supervisor) : Type 0 where
  pub stopping : t.stopping ≡ true
  pub state : t.state ≡ stopped
  pub timers : (name : ChildName) → t.restart_timers name ≡ none
  pub launched : t.generation ≡ s.generation
  pub told : (name : ChildName) → is_told (t.children name) ≡ true
  pub alive :
      (name : ChildName) → (is_live (t.children name) && not (is_live (s.children name))) ≡ false

pub refreshed-stopping : (s : Supervisor) → s.stopping ≡ true → refreshed s ≡ stopped
unfolding refreshed
refreshed-stopping s h = rw h

pub schedule-stopping :
    (now : ℕ) (name : ChildName) (generation : ℕ) (s : Supervisor)
    → s.stopping ≡ true
    → schedule_restart now name generation s ≡ s
unfolding schedule_restart
schedule-stopping now name generation s h = rw h

module _ (s : Supervisor) where
  pub refresh-IsQuiet : (t : Supervisor) → IsQuiet s t → IsQuiet s (refresh_runtime_state t)
  refresh-IsQuiet t q = record {
    stopping = q.stopping;
    state = refreshed-stopping t q.stopping;
    timers = q.timers;
    launched = q.launched;
    told = q.told;
    alive = q.alive;
  }

  -- A change of one child that keeps it told, and does not wake it.
  pub child-IsQuiet :
      (t : Supervisor) (name : ChildName) (after : Option ManagedChild)
      → IsQuiet s t
      → is_told after ≡ true
      → (is_live after && not (is_live (t.children name))) ≡ false
      → IsQuiet s (record t { children = set_at t.children name after })
  child-IsQuiet t name after q told alive = record {
    stopping = q.stopping;
    state = q.state;
    timers = q.timers;
    launched = q.launched;
    told = λ n. if_cases (λ c. is_told c ≡ true) (same_name name n) (λ _. told) (λ _. q.told n);
    alive = λ n.
        if_cases (λ c. (is_live c && not (is_live (s.children n))) ≡ false) (same_name name n)
          (λ e.
            subst (λ m. (is_live after && not (is_live (s.children m))) ≡ false)
              (eq_of_same_name name n e) (ground (arith, alive, q.alive name)))
          (λ _. q.alive n);
  }

  -- A change of trackers only.
  pub trackers-IsQuiet :
      (t : Supervisor) (trackers : ChildName → Tracker)
      → IsQuiet s t
      → IsQuiet s (record t { trackers = trackers })
  trackers-IsQuiet t trackers q = record {
    stopping = q.stopping;
    state = q.state;
    timers = q.timers;
    launched = q.launched;
    told = q.told;
    alive = q.alive;
  }

  -- The child ends in a supervisor that stops.
  abbrev ended : Supervisor → ChildName → ManagedChild → Supervisor
  ended t name child =
      refresh_runtime_state
        (record (set_tracker name (record (t.trackers name) { stable_timer = none }) t) {
          children =
              set_at t.children name (some (record child { exited = true; state = stopped }));
        })

  exit_child-stopping :
      (t : Supervisor) (now : ℕ) (name : ChildName) (child : ManagedChild) (code : Option ℕ)
      (signal error : Option String)
      → t.stopping ≡ true
      → exit_child now name child code signal error t ≡ ended t name child
  exit_child-stopping t now name child code signal error h =
      let expected : (child.intentional || t.stopping) ≡ true = ground arith in rw (expected) refl

  pub exits-IsQuiet :
      (t : Supervisor) (now : ℕ) (name : ChildName) (generation : ℕ) (code : Option ℕ)
      (signal error : Option String)
      → IsQuiet s t
      → IsQuiet s (mark_unexpected_exit now name generation code signal error t)
  unfolding mark_unexpected_exit
  exits-IsQuiet t now name generation code signal error q = elim (Option-cases (t.children name)) [
    | inl missing ↦ rw (missing, mark_unexpected_exit) q
    | inr (child, found) ↦
        let known = child.exited || not (child.generation == generation) in
        let cleared = set_at t.trackers name (record (t.trackers name) { stable_timer = none }) in
        let gone : Option ManagedChild = some (record child { exited = true; state = stopped }) in
        rw (found, mark_unexpected_exit)
          (if_cases (IsQuiet s) known (λ _. q)
            (λ _.
              subst (IsQuiet s)
                (sym (exit_child-stopping t now name child code signal error q.stopping))
                (refresh-IsQuiet _ (
                  child-IsQuiet (record t { trackers = cleared }) name gone
                    (trackers-IsQuiet t cleared q) refl refl))))
  ]

  pub fires-IsQuiet :
      (t : Supervisor) (now : ℕ) (name : ChildName) (spawn : Spawn)
      → IsQuiet s t
      → IsQuiet s (restart_timer_fires now name spawn t)
  unfolding restart_timer_fires
  fires-IsQuiet t now name spawn q = rw (q.timers name, restart_timer_fires) q

  pub stable-IsQuiet :
      (t : Supervisor) (name : ChildName) → IsQuiet s t → IsQuiet s (stable_timer_fires name t)
  unfolding stable_timer_fires
  stable-IsQuiet t name q = elim (Option-cases (t.trackers name).stable_timer) [
    | inl missing ↦ rw (missing, stable_timer_fires) q
    | inr (generation, found) ↦ rw (found, stable_timer_fires) (trackers-IsQuiet t _ q)
  ]

  -- A change of the record that keeps what it was told and does not wake it.
  pub with_record-IsQuiet :
      (t : Supervisor) (name : ChildName) (generation : ℕ) (f : ManagedChild → ManagedChild)
      → IsQuiet s t
      → ((c : ManagedChild) → is_told (some c) ≡ true → is_told (some (f c)) ≡ true)
      → ((c : ManagedChild) → (is_live (some (f c)) && c.exited) ≡ false)
      → IsQuiet s (with_record name generation f t)
  with_record-IsQuiet t name generation f q told alive =
      child-IsQuiet t name (update_child f (t.children name) generation) q
        (updated-told (t.children name) (q.told name)) (updated-alive (t.children name))
    where
      updated-told :
          (o : Option ManagedChild)
          → is_told o ≡ true
          → is_told (update_child f o generation) ≡ true
      updated-told none h = refl
      updated-told (some c) h =
          if_cases (λ d. is_told (some d) ≡ true) (c.generation == generation) (λ _. told c h)
            (λ _. h)

      updated-alive :
          (o : Option ManagedChild)
          → (is_live (update_child f o generation) && not (is_live o)) ≡ false
      updated-alive none = refl
      updated-alive (some c) =
          if_cases (λ d. (is_live (some d) && not (not c.exited)) ≡ false)
            (c.generation == generation) (λ _. ground (arith, alive c)) (λ _. ground arith)
