-- ===== src/Desktop/Supervisor/Stopping.antt =====
-- Nothing is launched after a stop, whatever comes.
use agent_metrics.Prelude.{
  ℕ, ◌+◌, ◌≡◌, refl, true, false, not, ◌&&◌, Option, none, some, List, [], ◌∷◌, arith, if_cases,
  sym, subst,
}
use agent_metrics.Desktop.Supervisor.State.{
  ChildName, stopped, degraded, ManagedChild, Supervisor, set_tracker,
}
use agent_metrics.Desktop.Supervisor.Turns.{
  is_killable, is_live, is_child, with_record, ready_turn, readiness_times_out, give_up,
  stop_times_out, log_write_fails, stop_child,
}
use agent_metrics.Desktop.Supervisor.Lifecycle.{
  Event, exits, restart_timer, stable_timer, becomes_ready, readiness_timeout, gives_up,
  stop_timeout, log_failure, finishes, stop_begin, stop_end, handle, run_events, stop_begins,
  stop_ends, map_child,
}
use agent_metrics.Desktop.Supervisor.Quiet.{
  is_told, IsQuiet, schedule-stopping, refresh-IsQuiet, trackers-IsQuiet, exits-IsQuiet,
  fires-IsQuiet, stable-IsQuiet, with_record-IsQuiet,
}

module _ (s : Supervisor) where
  ready-IsQuiet :
      (t : Supervisor) (name : ChildName) (generation : ℕ)
      → IsQuiet s t
      → IsQuiet s (ready_turn name generation t)
  unfolding ready_turn
  ready-IsQuiet t name generation q = refresh-IsQuiet s _ (
      trackers-IsQuiet s _ _
        (with_record-IsQuiet s t name generation _ q (λ c h. h) (λ c. ground arith)))

  times_out-IsQuiet :
      (t : Supervisor) (name : ChildName) (generation : ℕ)
      → IsQuiet s t
      → IsQuiet s (readiness_times_out name generation t)
  unfolding readiness_times_out
  times_out-IsQuiet t name generation q =
      with_record-IsQuiet s _ name generation stop_child (trackers-IsQuiet s t _ q)
        (λ c h. ground arith) (λ c. ground arith)

  give_up-IsQuiet :
      (t : Supervisor) (now : ℕ) (name : ChildName) (generation : ℕ)
      → IsQuiet s t
      → IsQuiet s (give_up now name generation t)
  unfolding give_up
  give_up-IsQuiet t now name generation q =
      let counted =
        set_tracker name
          (record (t.trackers name) {
            consecutive_failures = (t.trackers name).consecutive_failures + 1;
          })
          t in
      let marked =
        with_record name generation (λ child. record child { state = degraded }) counted in
      refresh-IsQuiet s _ (
        subst (IsQuiet s) (sym (schedule-stopping now name generation marked q.stopping)) (
          with_record-IsQuiet s counted name generation _ (trackers-IsQuiet s t _ q) (λ c h. h)
            (λ c. ground arith)))

  stop_times_out-IsQuiet :
      (t : Supervisor) (name : ChildName) (generation : ℕ)
      → IsQuiet s t
      → IsQuiet s (stop_times_out name generation t)
  unfolding stop_times_out
  stop_times_out-IsQuiet t name generation q =
      if_cases (IsQuiet s) (is_child (t.children name) generation && is_killable (t.children name))
        (λ _. trackers-IsQuiet s _ _ (
          with_record-IsQuiet s t name generation
            (λ child. record child { force_kill_requested = true; exited = true; state = stopped })
            q (λ c h. refl) (λ c. refl)))
        (λ _. q)

  stop_begins-IsQuiet :
      (t : Supervisor)
      → t.generation ≡ s.generation
      → ((name : ChildName)
          → (is_live (t.children name) && not (is_live (s.children name))) ≡ false)
      → IsQuiet s (stop_begins t)
  unfolding stop_begins
  stop_begins-IsQuiet t same alive = record {
    stopping = refl;
    state = refl;
    timers = λ name. refl;
    launched = same;
    told = λ name. stopped-told (t.children name);
    alive = λ name. stopped-alive (t.children name) (s.children name) (alive name);
  }
    where
      stopped-told : (o : Option ManagedChild) → is_told (map_child stop_child o) ≡ true
      stopped-told none = refl
      stopped-told (some c) = ground arith

      stopped-alive :
          (o before : Option ManagedChild)
          → (is_live o && not (is_live before)) ≡ false
          → (is_live (map_child stop_child o) && not (is_live before)) ≡ false
      stopped-alive none before h = refl
      stopped-alive (some c) before h = ground arith

  handle-IsQuiet : (t : Supervisor) (e : Event) → IsQuiet s t → IsQuiet s (handle e t)
  unfolding handle log_write_fails stop_ends
  handle-IsQuiet t (exits now name generation code signal error) q =
      exits-IsQuiet s t now name generation code signal error q
  handle-IsQuiet t (restart_timer now name spawn) q = fires-IsQuiet s t now name spawn q
  handle-IsQuiet t (stable_timer name) q = stable-IsQuiet s t name q
  handle-IsQuiet t (becomes_ready name generation) q = ready-IsQuiet t name generation q
  handle-IsQuiet t (readiness_timeout name generation) q = times_out-IsQuiet t name generation q
  handle-IsQuiet t (gives_up now name generation) q = give_up-IsQuiet t now name generation q
  handle-IsQuiet t (stop_timeout name generation) q = stop_times_out-IsQuiet t name generation q
  handle-IsQuiet t (log_failure name message) q = refresh-IsQuiet s _ (trackers-IsQuiet s t _ q)
  handle-IsQuiet t finishes q = refresh-IsQuiet s t q
  handle-IsQuiet t stop_begin q = stop_begins-IsQuiet t q.launched q.alive
  handle-IsQuiet t stop_end q = refresh-IsQuiet s _ (trackers-IsQuiet s t _ q)

  run-IsQuiet : (t : Supervisor) (es : List Event) → IsQuiet s t → IsQuiet s (run_events es t)
  unfolding run_events
  run-IsQuiet t [] q = q
  run-IsQuiet t (e ∷ es) q = run-IsQuiet (handle e t) es (handle-IsQuiet t e q)

-- Once a stop has begun, whatever callbacks of children and timers and continuations of
-- `waitForReady` and `stop` come, in any order, until the next call of `start` or `restart` goes on:
-- the supervisor says that it is stopped, no restart timer is set, no child is launched, none lives
-- that did not live before, and each that still lives was told to stop.
pub stop_lasts :
    (s : Supervisor) (es : List Event)
    → ((run_events es (stop_begins s)).state ≡ stopped)
      × ((name : ChildName) → (run_events es (stop_begins s)).restart_timers name ≡ none)
      × ((run_events es (stop_begins s)).generation ≡ s.generation)
      × ((name : ChildName)
          → (is_live ((run_events es (stop_begins s)).children name)
              && not (is_live (s.children name)))
            ≡ false)
      × ((name : ChildName) → is_told ((run_events es (stop_begins s)).children name) ≡ true)
stop_lasts s es =
    let q =
      run-IsQuiet s (stop_begins s) es (stop_begins-IsQuiet s s refl (λ name. ground arith)) in
    (q.state, q.timers, q.launched, q.alive, q.told)
