-- ===== src/Desktop/Supervisor/Restarting.antt =====
-- What follows the crash of a child.
use agent_metrics.Prelude.{
  ℕ, ◌+◌, ◌≡◌, ◌≢◌, String, true, false, leb, Option, none, some, ◌⊎◌, arith, inl, inr, Bool-cases,
  ap, ◌∙◌, length,
}
use agent_metrics.Desktop.Supervisor.State.{
  ChildName, starting, degraded, ManagedChild, RestartTimer, Supervisor, max_restarts_per_window,
  restart_delay_ms,
}
use agent_metrics.Desktop.Supervisor.Turns.{
  Spawn, spawned, is_child, mark_unexpected_exit, restart_timer_fires,
}
use agent_metrics.Desktop.Supervisor.Scheduling.{set_at-same, fires-lost}
use agent_metrics.Desktop.Supervisor.Crashing.{
  IsRunning, recent_launches, gone, trimmed, planned_timer, crash-planned, crash-full, crash-room,
  gone-tracker, planned-fires,
}

-- A child that runs ends by itself, while the supervisor is not stopping, the child is neither
-- latched nor owned outside, and no restart is planned. If five automatic launches of it are
-- counted in the last ten minutes, it is latched and none is planned. If fewer are, a restart of it
-- is planned after the delay for its failures in a row, and when that timer comes next, at whatever
-- time, and spawning succeeds, a new child of the name starts.
pub crash_is_handled :
    (s : Supervisor) (name : ChildName) (child : ManagedChild) (now later : ℕ) (pid code : Option ℕ)
    (signal error : Option String)
    → IsRunning s name child
    → s.restart_timers name ≡ none
    → ((leb max_restarts_per_window (length (recent_launches s name now)) ≡ true)
        × (((mark_unexpected_exit now name child.generation code signal error s).trackers
              name).latched
            ≡ true)
        × ((mark_unexpected_exit now name child.generation code signal error s).restart_timers name
            ≡ none))
      ⊎ ((leb max_restarts_per_window (length (recent_launches s name now)) ≡ false)
          × ((mark_unexpected_exit now name child.generation code signal error s).restart_timers
                name
              ≡ some (record {
                generation = child.generation;
                delay = restart_delay_ms ((s.trackers name).consecutive_failures + 1);
              }))
          × ((restart_timer_fires later name
                  (spawned pid)
                  (mark_unexpected_exit now name child.generation code signal error s)).children
                name
              ≡ some (record {
                pid = pid;
                generation = s.generation + 1;
                state = starting;
                intentional = false;
                exited = false;
                force_kill_requested = false;
              })))
crash_is_handled s name child now later pid code signal error r idle =
    let before = gone s name child now code signal error r in
    let counted = trimmed s name child now code signal error r in
    let timer = planned_timer s name child now code signal error r in
    elim (Bool-cases (leb max_restarts_per_window (length (recent_launches s name now)))) [
      | inl full ↦
          let same = crash-full s name child now code signal error r idle full in
          inl (
            full,
            ap (λ t. (t.trackers name).latched) same
                ∙ ap (λ t. t.latched)
                    (set_at-same before.trackers name (record counted { latched = true })),
            ap (λ t. t.restart_timers name) same ∙ idle,
          )
      | inr room ↦
          let same = crash-room s name child now code signal error r idle room in
          inr (
            room,
            ap (λ t. t.restart_timers name) same ∙ set_at-same s.restart_timers name (some timer),
            ap (λ t. (restart_timer_fires later name (spawned pid) t).children name) same
                ∙ planned-fires s name child now code signal error r later pid room,
          )
    ]

-- A child that runs ends by itself, while the supervisor is not stopping and the child is neither
-- latched nor owned outside, but a restart is still planned for an earlier child of the name, as
-- after a crash that a call of `start` has answered before its timer came. Then the crash plans
-- nothing; the timer that comes next, whatever `spawn` would do, launches nothing; and the child is
-- down, neither latched nor with a restart planned.
pub crash_before_old_timer :
    (s : Supervisor) (name : ChildName) (child : ManagedChild) (timer : RestartTimer)
    (now later : ℕ) (code : Option ℕ) (signal error : Option String) (spawn : Spawn)
    → IsRunning s name child
    → s.restart_timers name ≡ some timer
    → timer.generation ≢ child.generation
    → ((restart_timer_fires later name spawn
            (mark_unexpected_exit now name child.generation code signal error s)).children
          name
        ≡ some (record child { exited = true; state = degraded }))
      × ((restart_timer_fires later name spawn
              (mark_unexpected_exit now name child.generation code signal error s)).restart_timers
            name
          ≡ none)
      × (((restart_timer_fires later name spawn
              (mark_unexpected_exit now name child.generation code signal error s)).trackers
            name).latched
          ≡ false)
crash_before_old_timer s name child timer now later code signal error spawn r planned' older =
    let before = gone s name child now code signal error r in
    let dead : Option ManagedChild = some (record child { exited = true; state = degraded }) in
    let same = crash-planned s name child now code signal error r timer planned' in
    let there : before.children name ≡ dead = set_at-same s.children name dead in
    let unknown : is_child (before.children name) timer.generation ≡ false =
      ap (λ c. is_child c timer.generation) there ∙ ground (arith, older) in
    let fired =
      ap (restart_timer_fires later name spawn) same
      ∙ fires-lost later name spawn before timer planned' unknown in
    (
      ap (λ t. t.children name) fired ∙ there,
      ap (λ t. t.restart_timers name) fired ∙ set_at-same s.restart_timers name none,
      ap (λ t. (t.trackers name).latched) fired
          ∙ ap (λ t. t.latched) (gone-tracker s name child now code signal error r)
          ∙ r.unlatched,
    )
