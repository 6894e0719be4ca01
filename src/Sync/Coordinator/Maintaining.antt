-- ===== src/Sync/Coordinator/Maintaining.antt =====
-- Registration, switching, background success, pruning, queries and the periodic timer keep the
-- invariant.
use text.Mathlib.TextEquality.{eq_iff}
use agent_metrics.Prelude.{
  ℕ, ◌+◌, String, Bool, not, ◌||◌, none, some, Option, List, inl, inr, arith, Option-cases,
  if_cases, is_some, ltb,
}
use agent_metrics.Prelude.Maps.{has}
use agent_metrics.Sync.Types.{SyncAdapter}
use agent_metrics.Sync.Utils.{validate_adapter}
use agent_metrics.Sync.Coordinator.{Config, Coordinator, PeriodicTimer}
use agent_metrics.Sync.Coordinator.Registration.{register, set_enabled, mark_background_success}
use agent_metrics.Sync.Coordinator.Maintenance.{
  first_missing, prune_runs, get_status, get_run, get_runs, stop_periodic_sync, schedule_next,
  start_periodic_sync, tick,
}
use agent_metrics.Sync.Coordinator.Invariant.{IsLinked, IsValid, LeavesValid}
use agent_metrics.Sync.Coordinator.Triggering.{
  refresh_freshness-IsValid, counted-IsValid, manual_sync-IsValid, start_initial_sync-IsValid,
}

module _ (c : Config) where
  pub register-IsValid :
      (a : SyncAdapter) (s : Coordinator) → IsValid c s → IsValid c (register a s).1
  unfolding register
  register-IsValid a s v = elim (Option-cases (validate_adapter a)) [
    | inr (e, bad) ↦ rw (bad, register) v
    | inl fine ↦
        rw (fine, register)
          (if_cases (LeavesValid c) (has s.adapters a.adapter_instance_id) (λ taken. v)
            (λ unused.
              let a₀ = a.adapter_instance_id in
              record {
                linked = record {
                  active =
                      λ b r. ground (arith, v.linked.active b r, v.linked.paired a₀, eq_iff a₀ b);
                  pending =
                      λ b r. ground (arith, v.linked.pending b r, v.linked.paired a₀, eq_iff a₀ b);
                  exclusive = λ b. ground (arith, v.linked.exclusive b, eq_iff a₀ b);
                  dated = v.linked.dated;
                  idle = v.linked.idle;
                  paired = λ b. ground (arith, v.linked.paired b, eq_iff a₀ b);
                };
                listed = record {
                  bounded = v.listed.bounded;
                  distinct = v.listed.distinct;
                  queue = v.listed.queue;
                  slots = v.listed.slots;
                  closed = v.listed.closed;
                };
              }))
  ]

  pub mark_background_success-IsValid :
      (a₀ : String) (s : Coordinator) → IsValid c s → IsValid c (mark_background_success c a₀ s).1
  unfolding mark_background_success
  mark_background_success-IsValid a₀ s v = record {
    linked = record {
      active = λ b r. ground (arith, v.linked.active b r, v.linked.active a₀ r, eq_iff a₀ b);
      pending = λ b r. ground (arith, v.linked.pending b r, v.linked.pending a₀ r, eq_iff a₀ b);
      exclusive = λ b. ground (arith, v.linked.exclusive b, v.linked.exclusive a₀, eq_iff a₀ b);
      dated = λ r. ground (arith, v.linked.dated r);
      idle = λ r. ground (arith, v.linked.idle r);
      paired = λ b. ground (arith, v.linked.paired b, eq_iff a₀ b);
    };
    listed = record {
      bounded = ground (arith, v.listed.bounded);
      distinct = ground (arith, v.listed.distinct);
      queue = λ r. ground (arith, v.listed.queue r);
      slots = λ r. ground (arith, v.listed.slots r);
      closed = λ h r. ground (arith, v.listed.closed (ground arith) r);
    };
  }

  pub set_enabled-IsValid :
      (a₀ : String) (on : Bool) (s : Coordinator)
      → IsValid c s
      → IsValid c (set_enabled c a₀ on s).1
  unfolding set_enabled
  set_enabled-IsValid a₀ on s v = record {
    linked = record {
      active = λ b r. ground (arith, v.linked.active b r, v.linked.active a₀ r, eq_iff a₀ b);
      pending = λ b r. ground (arith, v.linked.pending b r, v.linked.pending a₀ r, eq_iff a₀ b);
      exclusive = λ b. ground (arith, v.linked.exclusive b, v.linked.exclusive a₀, eq_iff a₀ b);
      dated = λ r. ground (arith, v.linked.dated r);
      idle = λ r. ground (arith, v.linked.idle r);
      paired = λ b. ground (arith, v.linked.paired b, eq_iff a₀ b);
    };
    listed = record {
      bounded = ground (arith, v.listed.bounded);
      distinct = ground (arith, v.listed.distinct);
      queue = λ r. ground (arith, v.listed.queue r);
      slots = λ r. ground (arith, v.listed.slots r);
      closed = λ h r. ground (arith, v.listed.closed (ground arith) r);
    };
  }

  pub prune_runs-IsValid : (at : ℕ) (s : Coordinator) → IsValid c s → IsValid c (prune_runs c at s)
  unfolding prune_runs
  prune_runs-IsValid at s v = record {
    linked = record {
      active = λ b r. ground (arith, v.linked.active b r, v.linked.dated r);
      pending = λ b r. ground (arith, v.linked.pending b r, v.linked.dated r);
      exclusive = v.linked.exclusive;
      dated = λ r. ground (arith, v.linked.dated r);
      idle = λ r. ground (arith, v.linked.idle r);
      paired = v.linked.paired;
    };
    listed = record {
      bounded = v.listed.bounded;
      distinct = v.listed.distinct;
      queue = λ r. ground (arith, v.listed.queue r, v.linked.dated r);
      slots = λ r. ground (arith, v.listed.slots r, v.linked.dated r);
      closed = λ h r. ground (arith, v.listed.closed h r);
    };
  }

  read_clock-IsValid :
      (s : Coordinator) → IsValid c s → IsValid c (record s { clock_reads = s.clock_reads + 1 })
  read_clock-IsValid s v = counted-IsValid c (s.clock_reads + 1) s.run_calls s.request_calls s v

  pub get_status-IsValid : (s : Coordinator) → IsValid c s → IsValid c (get_status c s).1
  unfolding get_status
  get_status-IsValid s v =
      prune_runs-IsValid _ _ (refresh_freshness-IsValid c _ _ (read_clock-IsValid s v))

  pub get_run-IsValid : (r : String) (s : Coordinator) → IsValid c s → IsValid c (get_run c r s).1
  unfolding get_run
  get_run-IsValid r s v = prune_runs-IsValid _ _ (read_clock-IsValid s v)

  pub get_runs-IsValid : (s : Coordinator) → IsValid c s → IsValid c (get_runs c s).1
  unfolding get_runs
  get_runs-IsValid s v = prune_runs-IsValid _ _ (read_clock-IsValid s v)

  pub schedule_next-IsValid :
      (timer : PeriodicTimer) (s : Coordinator) → IsValid c s → IsValid c (schedule_next c timer s)
  unfolding schedule_next
  schedule_next-IsValid timer s v = record {
    linked = record {
      active = λ b r. ground (arith, v.linked.active b r);
      pending = λ b r. ground (arith, v.linked.pending b r);
      exclusive = λ b. ground (arith, v.linked.exclusive b);
      dated = v.linked.dated;
      idle = v.linked.idle;
      paired = λ b. ground (arith, v.linked.paired b);
    };
    listed = record {
      bounded = v.listed.bounded;
      distinct = v.listed.distinct;
      queue = v.listed.queue;
      slots = v.listed.slots;
      closed = v.listed.closed;
    };
  }

  pub timed-IsValid :
      (timer : Option PeriodicTimer) (s : Coordinator)
      → IsValid c s
      → IsValid c (record s { periodic_timer = timer })
  timed-IsValid timer s v = record {
    linked = record {
      active = v.linked.active;
      pending = v.linked.pending;
      exclusive = v.linked.exclusive;
      dated = v.linked.dated;
      idle = v.linked.idle;
      paired = v.linked.paired;
    };
    listed = record {
      bounded = v.listed.bounded;
      distinct = v.listed.distinct;
      queue = v.listed.queue;
      slots = v.listed.slots;
      closed = v.listed.closed;
    };
  }

  pub start_periodic_sync-IsValid :
      (interval : ℕ) (targets : Option (List String)) (s : Coordinator)
      → IsValid c s
      → IsValid c (start_periodic_sync c interval targets s).1
  unfolding start_periodic_sync
  start_periodic_sync-IsValid interval none s v =
      if_cases (LeavesValid c) s.shutting_down (λ shut. v)
        (λ o.
          if_cases (LeavesValid c) (is_some s.periodic_timer || not (ltb 0 interval)) (λ off. v)
            (λ on.
              timed-IsValid _ _
                (schedule_next-IsValid (record { interval = interval; targets = none }) s v)))
  start_periodic_sync-IsValid interval (some ids) s v =
      if_cases (LeavesValid c) s.shutting_down (λ shut. v)
        (λ o.
          if_cases (LeavesValid c) (is_some s.periodic_timer || not (ltb 0 interval)) (λ off. v)
            (λ on. elim (Option-cases (first_missing ids s)) [
              | inl known ↦ rw (known) (
                  timed-IsValid _ _ (
                    schedule_next-IsValid (record { interval = interval; targets = some ids }) s v))
              | inr (id, unknown) ↦ rw (unknown) v
            ]))

  pub stop_periodic_sync-IsLinked : (s : Coordinator) → IsLinked s → IsLinked (stop_periodic_sync s)
  unfolding stop_periodic_sync
  stop_periodic_sync-IsLinked s v = record {
    active = λ b r. ground (arith, v.active b r);
    pending = λ b r. ground (arith, v.pending b r);
    exclusive = λ b. ground (arith, v.exclusive b);
    dated = λ r. ground (arith, v.dated r);
    idle = λ r. ground (arith, v.idle r);
    paired = λ b. ground (arith, v.paired b);
  }

  pub stop_periodic_sync-IsValid :
      (s : Coordinator) → IsValid c s → IsValid c (stop_periodic_sync s)
  unfolding stop_periodic_sync
  stop_periodic_sync-IsValid s v = record {
    linked = stop_periodic_sync-IsLinked s v.linked;
    listed = record {
      bounded = ground (arith, v.listed.bounded);
      distinct = ground (arith, v.listed.distinct);
      queue = λ r. ground (arith, v.listed.queue r);
      slots = λ r. ground (arith, v.listed.slots r);
      closed = λ h r. ground (arith, v.listed.closed (ground arith) r);
    };
  }

  pub tick-IsValid : (s : Coordinator) → IsValid c s → IsValid c (tick c s)
  unfolding tick
  tick-IsValid s v =
      if_cases (IsValid c) s.shutting_down (λ shut. v)
        (λ o. elim (Option-cases s.periodic_timer) [
          | inl off ↦ rw (off) v
          | inr (timer, on) ↦ elim (Option-cases timer.targets) [
            | inl all ↦
                rw (on, all) (schedule_next-IsValid timer _ (manual_sync-IsValid c none s v))
            | inr (ids, some_of) ↦
                rw (on, some_of)
                  (schedule_next-IsValid timer _ (start_initial_sync-IsValid c (some ids) s v))
          ]
        ])
