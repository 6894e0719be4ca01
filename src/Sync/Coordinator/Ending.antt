-- ===== src/Sync/Coordinator/Ending.antt =====
-- The end of a run keeps the invariant: `completeSuccess`, `completeFailure`, `abortRun`.
use text.Mathlib.TextEquality.{eq_iff}
use agent_metrics.Prelude.{◌≡◌, String, true, false, some, ℕ, arith}
use agent_metrics.Prelude.Texts.{delete, contains-delete, length-delete-le}
use agent_metrics.Sync.Types.{SyncError, SyncResult}
use agent_metrics.Sync.Coordinator.{Config, InternalRun, Coordinator, is_syncing}
use agent_metrics.Sync.Coordinator.Completion.{complete_success, complete_failure, abort_run}
use agent_metrics.Sync.Coordinator.Invariant.{
  IsLinked, IsListed, active_is_unique, pending_is_unique,
}

abbrev pub release : String → Coordinator → Coordinator
release r₀ s = record s { active_run_ids = delete s.active_run_ids r₀ }

module _ (c : Config) (s : Coordinator) (r₀ : String) (i : InternalRun)
    (found : s.runs.get r₀ ≡ some i) where
  module _ (busy : is_syncing i.run.status ≡ true) where
    pub complete_success-IsLinked :
        (result : SyncResult) → IsLinked s → IsLinked (complete_success c r₀ i result s)
    unfolding complete_success
    complete_success-IsLinked result v =
        let a₀ = i.run.adapter_instance_id in
        record {
          active = λ a r. ground (
            arith,
            v.active a r,
            v.active a₀ r₀,
            eq_iff a₀ a,
            eq_iff r₀ r,
            v.active a r₀,
            active_is_unique (s.states.get a₀) r₀ r,
          );
          pending = λ a r. ground (
            arith,
            v.pending a r,
            v.active a₀ r₀,
            v.exclusive a₀,
            eq_iff a₀ a,
            eq_iff r₀ r,
            v.pending a r₀,
          );
          exclusive = λ a. ground (arith, v.exclusive a, eq_iff a₀ a);
          dated = λ r. ground (arith, v.dated r, v.dated r₀, eq_iff r₀ r);
          idle = λ r. ground (arith, v.idle r, v.idle r₀, eq_iff r₀ r);
          paired = λ a. ground (arith, v.paired a, v.paired a₀, eq_iff a₀ a);
        }

    pub complete_failure-IsLinked :
        (error : SyncError) → IsLinked s → IsLinked (complete_failure c r₀ i error s)
    unfolding complete_failure
    complete_failure-IsLinked error v =
        let a₀ = i.run.adapter_instance_id in
        record {
          active = λ a r. ground (
            arith,
            v.active a r,
            v.active a₀ r₀,
            eq_iff a₀ a,
            eq_iff r₀ r,
            v.active a r₀,
            active_is_unique (s.states.get a₀) r₀ r,
          );
          pending = λ a r. ground (
            arith,
            v.pending a r,
            v.active a₀ r₀,
            v.exclusive a₀,
            eq_iff a₀ a,
            eq_iff r₀ r,
            v.pending a r₀,
          );
          exclusive = λ a. ground (arith, v.exclusive a, eq_iff a₀ a);
          dated = λ r. ground (arith, v.dated r, v.dated r₀, eq_iff r₀ r);
          idle = λ r. ground (arith, v.idle r, v.idle r₀, eq_iff r₀ r);
          paired = λ a. ground (arith, v.paired a, v.paired a₀, eq_iff a₀ a);
        }

    pub complete_success-IsListed :
        (result : SyncResult)
        → s.shutting_down ≡ false
        → IsListed c s
        → IsListed c (release r₀ (complete_success c r₀ i result s))
    unfolding complete_success
    complete_success-IsListed result o l = record {
      bounded = ground (arith, length-delete-le s.active_run_ids r₀, l.bounded);
      distinct = ground (arith, l.distinct);
      queue = λ r. ground (arith, l.queue r, l.queue r₀, eq_iff r₀ r);
      slots = λ r.
          ground (arith, l.slots r, l.slots r₀, eq_iff r₀ r, contains-delete s.active_run_ids r₀ r);
      closed = λ h r. ground arith;
    }

    pub complete_failure-IsListed :
        (error : SyncError)
        → s.shutting_down ≡ false
        → IsListed c s
        → IsListed c (release r₀ (complete_failure c r₀ i error s))
    unfolding complete_failure
    complete_failure-IsListed error o l = record {
      bounded = ground (arith, length-delete-le s.active_run_ids r₀, l.bounded);
      distinct = ground (arith, l.distinct);
      queue = λ r. ground (arith, l.queue r, l.queue r₀, eq_iff r₀ r);
      slots = λ r.
          ground (arith, l.slots r, l.slots r₀, eq_iff r₀ r, contains-delete s.active_run_ids r₀ r);
      closed = λ h r. ground arith;
    }

  -- The links hold after an abort; the lists are emptied by `shutdown` itself.
  pub abort_run-IsLinked : (at : ℕ) → IsLinked s → IsLinked (abort_run c r₀ at i s)
  unfolding abort_run
  abort_run-IsLinked at v =
      let a₀ = i.run.adapter_instance_id in
      record {
        active = λ a r. ground (
          arith,
          v.active a r,
          v.active a₀ r₀,
          v.pending a₀ r₀,
          v.exclusive a₀,
          v.idle r₀,
          eq_iff a₀ a,
          eq_iff r₀ r,
          v.active a r₀,
          active_is_unique (s.states.get a₀) r₀ r,
        );
        pending = λ a r. ground (
          arith,
          v.pending a r,
          v.active a₀ r₀,
          v.pending a₀ r₀,
          v.exclusive a₀,
          v.idle r₀,
          eq_iff a₀ a,
          eq_iff r₀ r,
          v.pending a r₀,
          pending_is_unique (s.states.get a₀) r₀ r,
        );
        exclusive = λ a. ground (arith, v.exclusive a, v.idle r₀, eq_iff a₀ a);
        dated = λ r. ground (arith, v.dated r, v.dated r₀, eq_iff r₀ r);
        idle = λ r. ground (arith, v.idle r, v.idle r₀, eq_iff r₀ r);
        paired = λ a. ground (arith, v.paired a, v.paired a₀, eq_iff a₀ a);
      }
