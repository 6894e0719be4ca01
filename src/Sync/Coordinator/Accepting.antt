-- ===== src/Sync/Coordinator/Accepting.antt =====
-- Accepting a trigger keeps the invariant, on every branch of `accept`.
use text.Mathlib.TextEquality.{eq_iff}
use text.Mathlib.TextPositions.{eq_refl}
use agent_metrics.Sync.Coordinator.Starting.{start_run-IsListed}
use agent_metrics.Prelude.{
  ℕ, ◌<◌, ◌≡◌, ◌++◌, ltb→lt, refl, String, true, false, none, some, [], ◌∷◌, inl, inr, subst, sym,
  arith, ltb, length, Bool-cases,
}
use agent_metrics.Prelude.Texts.{contains, contains-append, IsNodup-snoc}
use agent_metrics.Sync.Types.{SyncAdapterState, SyncAdapterStatus}
use agent_metrics.Sync.Coordinator.{Config, InternalRun, Coordinator, persist_run}
use agent_metrics.Prelude.Maps.{put}
use agent_metrics.Sync.Utils.{snapshot_state}
use agent_metrics.Sync.Coordinator.Runs.{start_run}
use agent_metrics.Sync.Coordinator.Methods.{new_run, place_run}
use agent_metrics.Sync.Coordinator.Invariant.{IsLinked, IsListed, IsValid}

module _ (c : Config) (r₀ a₀ : String) (at : ℕ) (state : SyncAdapterState) (s : Coordinator)
    (v : IsValid c s) (fresh : s.runs.get r₀ ≡ none) (known : s.states.get a₀ ≡ some state)
    (no_active : state.active_run_id ≡ none) (no_pending : state.pending_run_id ≡ none)
    (open_ : s.shutting_down ≡ false) where
  placed_run : InternalRun
  unfolding snapshot_state
  placed_run = record { run = new_run c r₀ a₀ at; aborted = false; restore = snapshot_state state }

  abbrev placed : Coordinator
  placed = persist_run placed_run.run (record s { runs = put s.runs r₀ placed_run })

  place_run-started :
      ltb (length s.active_run_ids) c.concurrency ≡ true
      → (place_run c r₀ a₀ at state s).1 ≡ start_run c r₀ placed_run placed
  unfolding place_run placed_run
  place_run-started room = ground arith

  -- The coordinator in which the new run waits.
  abbrev waiting : Coordinator
  waiting = record placed {
    queued_run_ids = s.queued_run_ids ++ r₀ ∷ [];
    states =
        put s.states a₀
          (record state { pending_run_id = some r₀; status = SyncAdapterStatus.queued });
  }

  place_run-waiting :
      ltb (length s.active_run_ids) c.concurrency ≡ false
      → (place_run c r₀ a₀ at state s).1 ≡ waiting
  unfolding place_run placed_run persist_run
  place_run-waiting full = ground arith

  started-IsLinked : IsLinked (start_run c r₀ placed_run placed)
  unfolding placed_run start_run persist_run
  started-IsLinked = record {
    active = λ a r. ground (arith, v.linked.active a r, eq_iff a₀ a, eq_iff r₀ r);
    pending = λ a r. ground (arith, v.linked.pending a r, eq_iff a₀ a, eq_iff r₀ r);
    exclusive = λ a. ground (arith, v.linked.exclusive a, eq_iff a₀ a);
    dated = λ r. ground (arith, v.linked.dated r, eq_iff r₀ r);
    idle = λ r. ground (arith, v.linked.idle r, eq_iff r₀ r);
    paired = λ a. ground (arith, v.linked.paired a, eq_iff a₀ a);
  }

  waiting-IsLinked : IsLinked waiting
  unfolding placed_run persist_run
  waiting-IsLinked = record {
    active = λ a r. ground (arith, v.linked.active a r, eq_iff a₀ a, eq_iff r₀ r);
    pending = λ a r. ground (arith, v.linked.pending a r, eq_iff a₀ a, eq_iff r₀ r);
    exclusive = λ a. ground (arith, v.linked.exclusive a, eq_iff a₀ a);
    dated = λ r. ground (arith, v.linked.dated r, eq_iff r₀ r);
    idle = λ r. ground (arith, v.linked.idle r, eq_iff r₀ r);
    paired = λ a. ground (arith, v.linked.paired a, eq_iff a₀ a);
  }

  started-IsListed :
      length s.active_run_ids < c.concurrency → IsListed c (start_run c r₀ placed_run placed)
  unfolding placed_run persist_run
  started-IsListed room =
      start_run-IsListed c placed r₀ placed_run state (ground (arith, eq_refl r₀)) refl known open_
        room v.listed.distinct (λ r. ground (arith, v.listed.queue r, eq_iff r₀ r))
        (λ r. ground (arith, v.listed.slots r, eq_iff r₀ r))

  waiting-IsListed : IsListed c waiting
  unfolding placed_run persist_run contains
  waiting-IsListed = record {
    bounded = v.listed.bounded;
    distinct =
        IsNodup-snoc s.queued_run_ids r₀ v.listed.distinct (ground (arith, v.listed.queue r₀));
    queue = λ r.
        ground (arith, v.listed.queue r, eq_iff r₀ r, contains-append s.queued_run_ids (r₀ ∷ []) r);
    slots = λ r. ground (arith, v.listed.slots r, eq_iff r₀ r);
    closed = λ h r. ground arith;
  }

  pub place_run-IsValid : IsValid c (place_run c r₀ a₀ at state s).1
  place_run-IsValid = elim (Bool-cases (ltb (length s.active_run_ids) c.concurrency)) [
    | inl room ↦
        subst (IsValid c) (sym (place_run-started room))
          (record { linked = started-IsLinked; listed = started-IsListed (ltb→lt _ _ room) })
    | inr full ↦
        subst (IsValid c) (sym (place_run-waiting full))
          (record { linked = waiting-IsLinked; listed = waiting-IsListed })
  ]
