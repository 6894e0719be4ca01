-- ===== src/Sync/Coordinator/Starting.antt =====
-- Starting and queueing runs keep the invariant.
use text.Mathlib.TextEquality.{eq_iff}
use agent_metrics.Prelude.{◌<◌, ◌≡◌, String, true, false, not, ◌&&◌, some, length, arith}
use agent_metrics.Prelude.Texts.{◌=s◌, contains, IsNodup, contains-add, length-add-le}
use agent_metrics.Sync.Types.{SyncAdapterState}
use agent_metrics.Sync.Coordinator.{Config, InternalRun, Coordinator, is_queued}
use agent_metrics.Sync.Coordinator.Runs.{start_run}
use agent_metrics.Sync.Coordinator.Invariant.{
  IsLinked, IsListed, pending_is_unique, queued_at, syncing_at,
}

-- A run that waits for its adapter is started.
module _ (c : Config) (s : Coordinator) (r₀ : String) (i : InternalRun)
    (found : s.runs.get r₀ ≡ some i) (waits : is_queued i.run.status ≡ true) (v : IsLinked s) where
  pub start_run-IsLinked : IsLinked (start_run c r₀ i s)
  unfolding start_run
  start_run-IsLinked =
      let a₀ = i.run.adapter_instance_id in
      record {
        active = λ a r. ground (
          arith,
          v.active a r,
          v.active a₀ r,
          v.pending a₀ r₀,
          v.exclusive a₀,
          eq_iff a₀ a,
          eq_iff r₀ r,
          v.active a r₀,
        );
        pending = λ a r. ground (
          arith,
          v.pending a r,
          v.pending a₀ r,
          v.pending a₀ r₀,
          v.exclusive a₀,
          eq_iff a₀ a,
          eq_iff r₀ r,
          v.pending a r₀,
          pending_is_unique (s.states.get a₀) r₀ r,
        );
        exclusive = λ a. ground (arith, v.exclusive a, eq_iff a₀ a);
        dated = λ r. ground (arith, v.dated r, v.dated r₀, eq_iff r₀ r);
        idle = λ r. ground (arith, v.idle r, v.idle r₀, eq_iff r₀ r);
        paired = λ a. ground (arith, v.paired a, v.paired a₀, eq_iff a₀ a);
      }

-- The lists after a start. The run is queued, and is no longer in the queue.
module _ (c : Config) (s : Coordinator) (r₀ : String) (i : InternalRun) (state : SyncAdapterState)
    (found : s.runs.get r₀ ≡ some i) (waits : is_queued i.run.status ≡ true)
    (known : s.states.get i.run.adapter_instance_id ≡ some state)
    (open_ : s.shutting_down ≡ false) where
  pub start_run-IsListed :
      length s.active_run_ids < c.concurrency
      → IsNodup s.queued_run_ids
      → ((r : String) → contains s.queued_run_ids r ≡ (queued_at (s.runs.get r) && not (r₀ =s r)))
      → ((r : String) → contains s.active_run_ids r ≡ syncing_at (s.runs.get r))
      → IsListed c (start_run c r₀ i s)
  unfolding start_run
  start_run-IsListed room distinct queue slots = record {
    bounded = ground (arith, length-add-le s.active_run_ids r₀);
    distinct = ground arith;
    queue = λ r. ground (arith, queue r, eq_iff r₀ r);
    slots = λ r. ground (arith, slots r, contains-add s.active_run_ids r₀ r, eq_iff r₀ r);
    closed = λ h r. ground arith;
  }

  pub start_run-open : (start_run c r₀ i s).shutting_down ≡ false
  unfolding start_run
  start_run-open = ground arith

  pub start_run-queue : (start_run c r₀ i s).queued_run_ids ≡ s.queued_run_ids
  unfolding start_run
  start_run-queue = ground arith
