-- ===== src/Sync/Coordinator/Timing.antt =====
-- The timeout of a run: the timer of `execute` of apps/core/src/sync-coordinator.ts and what follows.
use text.Mathlib.TextPositions.{eq_refl}
use agent_metrics.Prelude.{
  ℕ, ◌≡◌, String, true, false, not, ◌&&◌, ◌||◌, some, arith, inl, inr, Bool-cases, ◌∙◌, refl, ap,
}
use agent_metrics.Prelude.Texts.{contains}
use agent_metrics.Sync.Types.{SyncError, SyncRunStatus}
use agent_metrics.Sync.Coordinator.{
  Config, InternalRun, Coordinator, now, is_syncing, is_aborted, is_terminal,
}
use agent_metrics.Sync.Coordinator.Completion.{
  Settlement, timeout_error, time_out, settle, settle_run, complete_failure,
}
use agent_metrics.Sync.Coordinator.Invariant.{IsValid, syncing_at}
use agent_metrics.Sync.Coordinator.Settling.{settle-IsValid, time_out-IsValid}
use agent_metrics.Sync.Coordinator.Outcomes.{finish_run-ended}

-- What `completeFailure` makes of a run.
abbrev failed_at : ℕ → SyncError → InternalRun → InternalRun
failed_at at error i = record i {
  run = record (i.run) {
    status = SyncRunStatus.failed;
    completed_at = some at;
    error = some error;
  };
}

module _ (c : Config) where
  complete_failure-run :
      (r : String) (i : InternalRun) (error : SyncError) (s : Coordinator)
      → is_syncing i.run.status ≡ true
      → (complete_failure c r i error s).runs.get r ≡ some (failed_at (now c s) error i)
  unfolding complete_failure
  complete_failure-run r i error s busy = ground (arith, eq_refl r)

  time_out-found :
      (r : String) (i : InternalRun) (s : Coordinator)
      → s.runs.get r ≡ some i
      → ((time_out r s).runs.get r ≡ some (record i { aborted = true }))
        × ((time_out r s).shutting_down ≡ s.shutting_down)
        × ((time_out r s).active_run_ids ≡ s.active_run_ids)
        × ((time_out r s).clock_reads ≡ s.clock_reads)
  unfolding time_out
  time_out-found r i s found = (ground (arith, eq_refl r), ground arith, ground arith, ground arith)

  settle_run-timed_out :
      (r : String) (i : InternalRun) (outcome : Settlement) (s : Coordinator)
      → is_syncing i.run.status ≡ true
      → i.aborted ≡ true
      → s.shutting_down ≡ false
      → (settle_run c r i outcome s).runs.get r ≡ some (failed_at (now c s) timeout_error i)
  unfolding settle_run
  settle_run-timed_out r i outcome s busy aborted o =
      let late : (s.shutting_down || i.aborted || is_aborted i.run.status) ≡ true = ground arith in
      let timed : (i.aborted && not s.shutting_down && is_syncing i.run.status) ≡ true =
        ground arith in
      rw (late, timed) (complete_failure-run r i timeout_error s busy)

  settle-ended :
      (r : String) (i j : InternalRun) (outcome : Settlement) (s : Coordinator)
      → s.runs.get r ≡ some i
      → (settle_run c r i outcome s).runs.get r ≡ some j
      → is_terminal j.run.status ≡ true
      → (settle c r outcome s).runs.get r ≡ some j
  unfolding settle
  settle-ended r i j outcome s found made ended =
      rw (found, settle) (finish_run-ended c r j (settle_run c r i outcome s) made ended)

  -- A valid coordinator with a syncing run does not shut down.
  syncing-open :
      (r : String) (i : InternalRun) (s : Coordinator)
      → IsValid c s
      → s.runs.get r ≡ some i
      → is_syncing i.run.status ≡ true
      → s.shutting_down ≡ false
  syncing-open r i s v found busy = elim (Bool-cases s.shutting_down) [
    | inl shut ↦ absurd (ground (arith, v.listed.closed shut r))
    | inr o ↦ o
  ]

-- The time of a syncing run of a valid coordinator being over changes neither its status nor the
-- slot that it holds. Whatever its promise settles with next, a result or an error, the run is then
-- kept as failed with the error of the timeout, completed at that moment, and its slot is given back.
pub timed_out_run_fails :
    (c : Config) (r : String) (i : InternalRun) (outcome : Settlement) (s : Coordinator)
    → IsValid c s
    → s.runs.get r ≡ some i
    → is_syncing i.run.status ≡ true
    → (syncing_at ((time_out r s).runs.get r) ≡ true)
      × (contains (time_out r s).active_run_ids r ≡ true)
      × ((settle c r outcome (time_out r s)).runs.get r
          ≡ some (record i {
            aborted = true;
            run = record (i.run) {
              status = SyncRunStatus.failed;
              completed_at = some (c.clock s.clock_reads);
              error = some (record {
                code = "SYNC_TIMEOUT";
                summary = "Sync exceeded 3 minutes and was aborted";
              });
            };
          }))
      × (contains (settle c r outcome (time_out r s)).active_run_ids r ≡ false)
timed_out_run_fails c r i outcome s v found busy =
    let t = time_out r s in
    let j : InternalRun = record i { aborted = true } in
    let (there, shut, slots, reads) = time_out-found c r i s found in
    let w = settle-IsValid c r outcome t (time_out-IsValid c r s v) in
    let o = syncing-open c r i s v found busy in
    let failed = settle_run-timed_out c r j outcome t busy refl (shut ∙ o) in
    let ended =
      settle-ended c r j _ outcome t there failed refl
      ∙ ap (λ (n : ℕ). some (failed_at (c.clock n) timeout_error j)) reads in
    (
      ground (arith, there),
      ground (arith, slots, v.listed.slots r),
      ended,
      ground (arith, w.listed.slots r, ended),
    )
