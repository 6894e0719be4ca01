-- ===== src/Desktop/Supervisor/Callbacks.antt =====
-- The other callbacks and continuations keep a supervisor sound.
use agent_metrics.Prelude.{
  ℕ, ◌+◌, refl, String, Bool, true, false, ◌&&◌, none, some, arith, inl, inr, Option-cases,
  if_cases, is_some, if◌then◌else◌,
}
use agent_metrics.Desktop.Supervisor.State.{
  ChildName, stopped, degraded, ready, Tracker, Supervisor, set_tracker,
}
use agent_metrics.Desktop.Supervisor.Turns.{
  is_child, stable_timer_fires, ready_turn, readiness_times_out, give_up, stop_times_out,
  log_write_fails, stop_child, reset_failure_state, is_live, is_killable, is_some_ready,
}
use agent_metrics.Desktop.Supervisor.Sound.{
  IsSound, refresh-IsSound, tracker-IsSound, schedule-IsSound,
}
use agent_metrics.Desktop.Supervisor.Keeping.{with_record-IsSound, same_tracker-IsSound}

-- Without failures that count.
pub reset-IsSound :
    (clear_exit : Bool) (s : Supervisor) (name : ChildName) (t : Tracker)
    → IsSound s
    → IsSound (set_tracker name (reset_failure_state clear_exit t) s)
reset-IsSound clear_exit s name t v =
    tracker-IsSound s name (reset_failure_state clear_exit t) v (omega arith) refl

pub stable-IsSound :
    (name : ChildName) (s : Supervisor) → IsSound s → IsSound (stable_timer_fires name s)
unfolding stable_timer_fires
stable-IsSound name s v = elim (Option-cases (s.trackers name).stable_timer) [
  | inl missing ↦ rw (missing, stable_timer_fires) v
  | inr (generation, found) ↦
      let fired = record (s.trackers name) { stable_timer = none } in
      rw (found, stable_timer_fires)
        (if_cases (λ t. IsSound (set_tracker name t s))
          (is_child (s.children name) generation
            && (is_live (s.children name) && is_some_ready (s.children name)))
          (λ _. reset-IsSound false s name fired v)
          (λ _. same_tracker-IsSound s name fired v refl refl))
]

pub ready-IsSound :
    (name : ChildName) (generation : ℕ) (s : Supervisor)
    → IsSound s
    → IsSound (ready_turn name generation s)
unfolding ready_turn
ready-IsSound name generation s v = refresh-IsSound _ (
    same_tracker-IsSound _ name
      (record (s.trackers name) { error_summary = none; stable_timer = some generation })
      (with_record-IsSound s name generation (λ child. record child { state = ready }) v
        (λ c h. ground arith))
      refl refl)

pub times_out-IsSound :
    (name : ChildName) (generation : ℕ) (s : Supervisor)
    → IsSound s
    → IsSound (readiness_times_out name generation s)
unfolding readiness_times_out
times_out-IsSound name generation s v =
    with_record-IsSound _ name generation stop_child
      (same_tracker-IsSound s name
        (record (s.trackers name) { error_summary = some "Readiness timeout" }) v refl refl)
      (λ c h. ground arith)

pub give_up-IsSound :
    (now : ℕ) (name : ChildName) (generation : ℕ) (s : Supervisor)
    → IsSound s
    → IsSound (give_up now name generation s)
unfolding give_up
give_up-IsSound now name generation s v = refresh-IsSound _ (
    schedule-IsSound now name generation _ (
      with_record-IsSound _ name generation (λ child. record child { state = degraded })
        (same_tracker-IsSound s name
          (record (s.trackers name) {
            consecutive_failures = (s.trackers name).consecutive_failures + 1;
          })
          v refl refl)
        (λ c h. ground arith)))

pub stop_times_out-IsSound :
    (name : ChildName) (generation : ℕ) (s : Supervisor)
    → IsSound s
    → IsSound (stop_times_out name generation s)
unfolding stop_times_out
stop_times_out-IsSound name generation s v =
    if_cases IsSound (is_child (s.children name) generation && is_killable (s.children name))
      (λ _.
        same_tracker-IsSound _ name (record (s.trackers name) { force_kill_requested = true })
          (with_record-IsSound s name generation
            (λ child. record child { force_kill_requested = true; exited = true; state = stopped })
            v (λ c h. refl))
          refl refl)
      (λ _. v)

pub log_write-IsSound :
    (name : ChildName) (message : String) (s : Supervisor)
    → IsSound s
    → IsSound (log_write_fails name message s)
unfolding log_write_fails
log_write-IsSound name message s v = refresh-IsSound _ (
    same_tracker-IsSound s name
      (record (s.trackers name) {
        error_summary =
            if is_some (s.trackers name).error_summary
            then (s.trackers name).error_summary
            else some message;
        log_write_failed = true;
      })
      v refl refl)
