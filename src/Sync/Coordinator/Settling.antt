-- ===== src/Sync/Coordinator/Settling.antt =====
-- However an adapter's promise settles, and whenever the timeout fires, the invariant holds.
use text.Mathlib.TextEquality.{eq_iff}
use agent_metrics.Prelude.{
  ◌≡◌, String, true, false, not, ◌&&◌, ◌||◌, some, inl, inr, subst, sym, arith, Bool-cases,
  Option-cases, if_cases, ◌∙◌,
}
use agent_metrics.Prelude.Texts.{contains-delete, length-delete-le}
use agent_metrics.Sync.Types.{SyncError, SyncResult}
use agent_metrics.Sync.Utils.{coordinator_error, ok, throws, normalize_result, to_sync_error}
use agent_metrics.Sync.Coordinator.{Config, InternalRun, Coordinator, is_syncing, is_aborted}
use agent_metrics.Sync.Coordinator.Completion.{
  Settlement, resolved, rejected, timeout_error, complete_success, complete_failure, settle_run,
  finish_run, settle, time_out,
}
use agent_metrics.Sync.Coordinator.Invariant.{IsLinked, IsValid, syncing_at}
use agent_metrics.Sync.Coordinator.Draining.{IsDrained, drain_queue-IsDrained}
use agent_metrics.Sync.Coordinator.Ending.{
  release, complete_success-IsLinked, complete_failure-IsLinked, complete_success-IsListed,
  complete_failure-IsListed,
}

module _ (c : Config) where
  release-IsLinked : (r : String) (s : Coordinator) → IsLinked s → IsLinked (release r s)
  release-IsLinked r s v = record {
    active = v.active;
    pending = v.pending;
    exclusive = v.exclusive;
    dated = v.dated;
    idle = v.idle;
    paired = v.paired;
  }

  -- A run that is not syncing has no slot to give back.
  pub release-IsValid :
      (r₀ : String) (s : Coordinator)
      → syncing_at (s.runs.get r₀) ≡ false
      → IsValid c s
      → IsValid c (release r₀ s)
  release-IsValid r₀ s over v = record {
    linked = release-IsLinked r₀ s v.linked;
    listed = record {
      bounded = ground (arith, length-delete-le s.active_run_ids r₀, v.listed.bounded);
      distinct = v.listed.distinct;
      queue = v.listed.queue;
      slots =
          λ r. ground (arith, v.listed.slots r, eq_iff r₀ r, contains-delete s.active_run_ids r₀ r);
      closed = v.listed.closed;
    };
  }

  module _ (r₀ : String) (i : InternalRun) (s : Coordinator) (found : s.runs.get r₀ ≡ some i)
      (v : IsValid c s) where
    idle_of_not_syncing : is_syncing i.run.status ≡ false → syncing_at (s.runs.get r₀) ≡ false
    idle_of_not_syncing h = ground arith

    unchanged_success :
        (result : SyncResult)
        → is_syncing i.run.status ≡ false
        → complete_success c r₀ i result s ≡ s
    unfolding complete_success
    unchanged_success result h = ground arith

    unchanged_failure :
        (error : SyncError) → is_syncing i.run.status ≡ false → complete_failure c r₀ i error s ≡ s
    unfolding complete_failure
    unchanged_failure error h = ground arith

    success-released :
        (result : SyncResult)
        → s.shutting_down ≡ false
        → IsValid c (release r₀ (complete_success c r₀ i result s))
    success-released result o = elim (Bool-cases (is_syncing i.run.status)) [
      | inl busy ↦ record {
        linked =
            release-IsLinked r₀ _ (complete_success-IsLinked c s r₀ i found busy result v.linked);
        listed = complete_success-IsListed c s r₀ i found busy result o v.listed;
      }
      | inr over ↦
          subst (λ t. IsValid c (release r₀ t)) (sym (unchanged_success result over))
            (release-IsValid r₀ s (idle_of_not_syncing over) v)
    ]

    failure-released :
        (error : SyncError)
        → s.shutting_down ≡ false
        → IsValid c (release r₀ (complete_failure c r₀ i error s))
    failure-released error o = elim (Bool-cases (is_syncing i.run.status)) [
      | inl busy ↦ record {
        linked =
            release-IsLinked r₀ _ (complete_failure-IsLinked c s r₀ i found busy error v.linked);
        listed = complete_failure-IsListed c s r₀ i found busy error o v.listed;
      }
      | inr over ↦
          subst (λ t. IsValid c (release r₀ t)) (sym (unchanged_failure error over))
            (release-IsValid r₀ s (idle_of_not_syncing over) v)
    ]

    -- No promise is waited for any more, or its result comes too late.
    late_is_idle :
        (s.shutting_down || i.aborted || is_aborted i.run.status) ≡ true
        → (i.aborted && not s.shutting_down && is_syncing i.run.status) ≡ false
        → syncing_at (s.runs.get r₀) ≡ false
    late_is_idle late other = elim (Bool-cases s.shutting_down) [
      | inl shut ↦ ground (arith, v.listed.closed shut r₀)
      | inr o ↦ ground arith
    ]

    settled :
        (outcome : Settlement)
        → (s.shutting_down || i.aborted || is_aborted i.run.status) ≡ false
        → IsValid c (release r₀ (settle_run c r₀ i outcome s))
    unfolding settle_run
    settled (resolved raw) early =
        rw early
          (elim (normalize_result raw)
            as (λ n. IsValid c (
              release r₀ (elim n [
                | ok result ↦ complete_success c r₀ i result s
                | throws e ↦ complete_failure c r₀ i (to_sync_error (coordinator_error e)) s
              ]))) [
                | ok result ↦ success-released result (ground arith)
                | throws e ↦ failure-released (to_sync_error (coordinator_error e)) (ground arith)
              ])
    settled (rejected e) early = rw early (failure-released (to_sync_error e) (ground arith))

    settle_run-released :
        (outcome : Settlement) → IsValid c (release r₀ (settle_run c r₀ i outcome s))
    unfolding settle_run
    settle_run-released outcome =
        elim (Bool-cases (s.shutting_down || i.aborted || is_aborted i.run.status)) [
          | inl late ↦
              elim (Bool-cases (i.aborted && not s.shutting_down && is_syncing i.run.status)) [
                | inl timed ↦ rw (late, timed) (failure-released timeout_error (ground arith))
                | inr other ↦ rw (late, other) (release-IsValid r₀ s (late_is_idle late other) v)
              ]
          | inr early ↦ settled outcome early
        ]

  finish_run-IsValid :
      (r₀ : String) (s : Coordinator) → IsValid c (release r₀ s) → IsValid c (finish_run c r₀ s)
  unfolding finish_run
  finish_run-IsValid r₀ s v =
      if_cases (IsValid c) s.shutting_down (λ shut. v)
        (λ o. (drain_queue-IsDrained c (release r₀ s) o v).valid)

  finish_run-IsDrained :
      (r₀ : String) (s : Coordinator)
      → s.shutting_down ≡ false
      → IsValid c (release r₀ s)
      → IsDrained c (finish_run c r₀ s)
  unfolding finish_run
  finish_run-IsDrained r₀ s o v =
      if_cases (IsDrained c) s.shutting_down (λ shut. cc)
        (λ p. drain_queue-IsDrained c (release r₀ s) p v)

  settle_run-open :
      (r₀ : String) (i : InternalRun) (outcome : Settlement) (s : Coordinator)
      → (settle_run c r₀ i outcome s).shutting_down ≡ s.shutting_down
  unfolding settle_run
  settle_run-open r₀ i (resolved raw) s = ground arith
  settle_run-open r₀ i (rejected e) s = ground arith

  pub settle-IsValid :
      (r₀ : String) (outcome : Settlement) (s : Coordinator)
      → IsValid c s
      → IsValid c (settle c r₀ outcome s)
  unfolding settle
  settle-IsValid r₀ outcome s v = elim (Option-cases (s.runs.get r₀)) [
    | inl missing ↦
        rw (missing, settle) (finish_run-IsValid r₀ s (release-IsValid r₀ s (ground arith) v))
    | inr (i, found) ↦
        rw (found, settle) (finish_run-IsValid r₀ _ (settle_run-released r₀ i s found v outcome))
  ]

  -- After the promise of a run of a valid coordinator has settled, unless it shuts down, the
  -- coordinator is valid, and no accepted run waits beside a free slot: the queue is empty or as
  -- many runs are in their slots as the concurrency allows.
  pub settle-IsDrained :
      (r₀ : String) (outcome : Settlement) (s : Coordinator)
      → s.shutting_down ≡ false
      → IsValid c s
      → IsDrained c (settle c r₀ outcome s)
  unfolding settle
  settle-IsDrained r₀ outcome s o v = elim (Option-cases (s.runs.get r₀)) [
    | inl missing ↦
        rw (missing, settle) (finish_run-IsDrained r₀ s o (release-IsValid r₀ s (ground arith) v))
    | inr (i, found) ↦
        rw (found, settle)
          (finish_run-IsDrained r₀ _ (settle_run-open r₀ i outcome s ∙ o)
            (settle_run-released r₀ i s found v outcome))
  ]

  pub time_out-IsValid : (r₀ : String) (s : Coordinator) → IsValid c s → IsValid c (time_out r₀ s)
  unfolding time_out
  time_out-IsValid r₀ s v = record {
    linked = record {
      active = λ a r. ground (arith, v.linked.active a r, eq_iff r₀ r);
      pending = λ a r. ground (arith, v.linked.pending a r, eq_iff r₀ r);
      exclusive = λ a. ground (arith, v.linked.exclusive a);
      dated = λ r. ground (arith, v.linked.dated r, eq_iff r₀ r);
      idle = λ r. ground (arith, v.linked.idle r, eq_iff r₀ r);
      paired = λ a. ground (arith, v.linked.paired a);
    };
    listed = record {
      bounded = ground (arith, v.listed.bounded);
      distinct = ground (arith, v.listed.distinct);
      queue = λ r. ground (arith, v.listed.queue r, eq_iff r₀ r);
      slots = λ r. ground (arith, v.listed.slots r, eq_iff r₀ r);
      closed = λ h r. ground (arith, v.listed.closed (ground arith) r, eq_iff r₀ r);
    };
  }
