-- ===== src/Sync/Coordinator/Outcomes.antt =====
-- How a run ends: `execute` after the promise of its adapter has settled.
use text.Mathlib.TextPositions.{eq_refl}
use text.Mathlib.TextEquality.{eq_iff}
use agent_metrics.Prelude.{
  ◌≡◌, refl, String, true, false, not, ◌&&◌, ◌||◌, none, some, [], ◌∷◌, List, inl, inr, arith,
  Bool-cases, ◌∙◌, ap, length, if_cases, ltb,
}
use agent_metrics.Prelude.Texts.{delete}
use agent_metrics.Sync.Types.{SyncResult, SyncError, SyncRunStatus}
use agent_metrics.Sync.Utils.{coordinator_error, ok, throws, normalize_result, to_sync_error}
use agent_metrics.Sync.Coordinator.{
  Config, InternalRun, Coordinator, now, is_terminal, is_syncing, is_aborted,
}
use agent_metrics.Sync.Coordinator.Runs.{start_shifted, drain_from, drain_queue}
use agent_metrics.Sync.Coordinator.Completion.{
  Settlement, resolved, rejected, timeout_error, settle, settle_run, finish_run, complete_success,
  complete_failure,
}
use agent_metrics.Sync.Coordinator.Invariant.{IsValid, queued_at}

-- A run that does not wait in the queue is left alone by the loop that starts runs.
module _ (c : Config) where
  start_shifted-other :
      (q r : String) (s : Coordinator)
      → queued_at (s.runs.get r) ≡ false
      → (start_shifted c q s).runs.get r ≡ s.runs.get r
  unfolding start_shifted
  start_shifted-other q r s h = ground (arith, eq_iff q r)

  drain_from-other :
      (ids : List String) (r : String) (s : Coordinator)
      → queued_at (s.runs.get r) ≡ false
      → (drain_from c ids s).runs.get r ≡ s.runs.get r
  unfolding drain_from
  drain_from-other [] r s h = refl
  drain_from-other (q ∷ ids) r s h =
      let t = record s { queued_run_ids = ids } in
      if_cases (λ (u : Coordinator). u.runs.get r ≡ s.runs.get r)
        (not s.shutting_down && ltb (length s.active_run_ids) c.concurrency)
        (λ room.
          drain_from-other ids r (start_shifted c q t)
            (ap queued_at (start_shifted-other q r t h) ∙ h)
          ∙ start_shifted-other q r t h)
        (λ stop. refl)

  -- The run under the id has ended.
  abbrev pub HasEnded : Coordinator → String → Type 0
  HasEnded s r = (j : InternalRun) × (s.runs.get r ≡ some j) × (is_terminal j.run.status ≡ true)

  -- Giving back a slot leaves an ended run alone.
  pub finish_run-ended :
      (r : String) (j : InternalRun) (s : Coordinator)
      → s.runs.get r ≡ some j
      → is_terminal j.run.status ≡ true
      → (finish_run c r s).runs.get r ≡ some j
  unfolding finish_run drain_queue
  finish_run-ended r j s found ended =
      let t = record s { active_run_ids = delete s.active_run_ids r } in
      if_cases (λ (u : Coordinator). u.runs.get r ≡ some j) s.shutting_down (λ shut. found)
        (λ o. drain_from-other t.queued_run_ids r t (ground arith) ∙ found)

  finish_run-HasEnded :
      (r : String) (s : Coordinator) → HasEnded s r → HasEnded (finish_run c r s) r
  finish_run-HasEnded r s (j, found, ended) = (j, finish_run-ended r j s found ended, ended)

  complete_success-HasEnded :
      (r : String) (i : InternalRun) (result : SyncResult) (s : Coordinator)
      → is_syncing i.run.status ≡ true
      → HasEnded (complete_success c r i result s) r
  unfolding complete_success
  complete_success-HasEnded r i result s busy =
      let j : InternalRun = record i {
        run = record (i.run) {
          discovered_records = result.discovered_records;
          committed_unique_events = result.committed_unique_events;
          projected_unique_events = result.projected_unique_events;
          projection_watermark = some result.projection_watermark;
          status = SyncRunStatus.succeeded;
          completed_at = some (now c s);
          error = none;
        };
      } in
      (j, ground (arith, eq_refl r), refl)

  complete_failure-HasEnded :
      (r : String) (i : InternalRun) (error : SyncError) (s : Coordinator)
      → is_syncing i.run.status ≡ true
      → HasEnded (complete_failure c r i error s) r
  unfolding complete_failure
  complete_failure-HasEnded r i error s busy =
      let j : InternalRun = record i {
        run = record (i.run) {
          status = SyncRunStatus.failed;
          completed_at = some (now c s);
          error = some error;
        };
      } in
      (j, ground (arith, eq_refl r), refl)

  settle_run-HasEnded :
      (r : String) (i : InternalRun) (outcome : Settlement) (s : Coordinator)
      → is_syncing i.run.status ≡ true
      → s.shutting_down ≡ false
      → HasEnded (settle_run c r i outcome s) r
  unfolding settle_run
  settle_run-HasEnded r i outcome s busy o =
      elim (Bool-cases (s.shutting_down || i.aborted || is_aborted i.run.status)) [
        | inl late ↦
            let timed : (i.aborted && not s.shutting_down && is_syncing i.run.status) ≡ true =
              ground arith in
            rw (late, timed) (complete_failure-HasEnded r i timeout_error s busy)
        | inr early ↦
            rw early
              (elim outcome
                as (λ w.
                  HasEnded
                    (elim w [
                      | resolved raw ↦ elim (normalize_result raw) [
                        | ok result ↦ complete_success c r i result s
                        | throws e ↦ complete_failure c r i (to_sync_error (coordinator_error e)) s
                      ]
                      | rejected e ↦ complete_failure c r i (to_sync_error e) s
                    ])
                    r) [
                      | resolved raw ↦
                          elim (normalize_result raw)
                            as (λ n.
                              HasEnded
                                (elim n [
                                  | ok result ↦ complete_success c r i result s
                                  | throws e ↦
                                      complete_failure c r i (to_sync_error (coordinator_error e)) s
                                ])
                                r) [
                                  | ok result ↦ complete_success-HasEnded r i result s busy
                                  | throws e ↦
                                      complete_failure-HasEnded r i
                                        (to_sync_error (coordinator_error e)) s busy
                                ]
                      | rejected e ↦ complete_failure-HasEnded r i (to_sync_error e) s busy
                    ])
      ]

-- In a valid coordinator a syncing run ends as soon as its promise settles, whatever it settles
-- with: the run is kept under its id, in a final status.
pub settle_ends_run :
    (c : Config) (r : String) (i : InternalRun) (outcome : Settlement) (s : Coordinator)
    → IsValid c s
    → s.runs.get r ≡ some i
    → is_syncing i.run.status ≡ true
    → HasEnded c (settle c r outcome s) r
unfolding settle
settle_ends_run c r i outcome s v found busy = elim (Bool-cases s.shutting_down) [
  | inl shut ↦ absurd (ground (arith, v.listed.closed shut r))
  | inr o ↦
      rw (found, settle)
        (finish_run-HasEnded c r (settle_run c r i outcome s)
          (settle_run-HasEnded c r i outcome s busy o))
]
