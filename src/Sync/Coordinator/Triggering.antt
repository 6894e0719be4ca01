-- ===== src/Sync/Coordinator/Triggering.antt =====
-- Every branch of `accept`, and what calls it, keeps the invariant.
use agent_metrics.Prelude.{
  ℕ, ◌+◌, ◌≡◌, String, false, not, ◌||◌, none, some, Option, [], ◌∷◌, List, inl, inr, arith,
  Option-cases, if_cases,
}
use agent_metrics.Prelude.Maps.{has}
use agent_metrics.Sync.Types.{SyncAdapter, SyncAdapterState}
use agent_metrics.Sync.Utils.{is_blank, Outcome-cases}
use agent_metrics.Sync.Coordinator.{
  Config, Coordinator, now, is_disabled, refresh_state, refresh_freshness,
}
use agent_metrics.Sync.Coordinator.Methods.{
  create_run, accept_state, accept, trigger, accept_each, accept_adapters, manual_sync,
  start_initial_sync, enabled_of,
}
use agent_metrics.Sync.Coordinator.Invariant.{IsValid, LeavesValid}
use agent_metrics.Sync.Coordinator.Accepting.{place_run-IsValid}

module _ (c : Config) where
  pub refresh_freshness-IsValid :
      (at : ℕ) (s : Coordinator) → IsValid c s → IsValid c (refresh_freshness c at s)
  unfolding refresh_freshness refresh_state
  refresh_freshness-IsValid at s v = record {
    linked = record {
      active = λ a r. ground (arith, v.linked.active a r);
      pending = λ a r. ground (arith, v.linked.pending a r);
      exclusive = λ a. ground (arith, v.linked.exclusive a);
      dated = v.linked.dated;
      idle = v.linked.idle;
      paired = λ a. ground (arith, v.linked.paired a);
    };
    listed = record {
      bounded = v.listed.bounded;
      distinct = v.listed.distinct;
      queue = v.listed.queue;
      slots = v.listed.slots;
      closed = v.listed.closed;
    };
  }

  -- The counters of the calls to the clock and to the factories are free.
  pub counted-IsValid :
      (n m k : ℕ) (s : Coordinator)
      → IsValid c s
      → IsValid c (record s { clock_reads = n; run_calls = m; request_calls = k })
  counted-IsValid n m k s v = record {
    linked = record {
      active = v.linked.active;
      pending = v.linked.pending;
      exclusive = v.linked.exclusive;
      dated = v.linked.dated;
      idle = v.linked.idle;
      paired = v.linked.paired;
    };
    listed = record {
      bounded = v.listed.bounded;
      distinct = v.listed.distinct;
      queue = v.listed.queue;
      slots = v.listed.slots;
      closed = v.listed.closed;
    };
  }

  create_run-IsValid :
      (a₀ : String) (at : ℕ) (state : SyncAdapterState) (s : Coordinator)
      → IsValid c s
      → s.shutting_down ≡ false
      → s.states.get a₀ ≡ some state
      → state.active_run_id ≡ none
      → state.pending_run_id ≡ none
      → IsValid c (create_run c a₀ at state s).1
  unfolding create_run
  create_run-IsValid a₀ at state s v o known no_active no_pending =
      let r₀ = c.run_id_factory a₀ at s.run_calls in
      let called = record s { run_calls = s.run_calls + 1 } in
      let valid = counted-IsValid s.clock_reads (s.run_calls + 1) s.request_calls s v in
      if_cases (LeavesValid c) (is_blank r₀) (λ blank. valid)
        (λ named.
          if_cases (LeavesValid c) (has s.runs r₀ || has s.persisted_runs r₀) (λ taken. valid)
            (λ unused.
              place_run-IsValid c r₀ a₀ at state called valid (ground arith) known no_active
                no_pending o))

  accept_state-IsValid :
      (a₀ : String) (at : ℕ) (adapter : SyncAdapter) (state : SyncAdapterState) (s : Coordinator)
      → IsValid c s
      → s.shutting_down ≡ false
      → s.states.get a₀ ≡ some state
      → IsValid c (accept_state c a₀ at adapter state s).1
  unfolding accept_state
  accept_state-IsValid a₀ at adapter state s v o known =
      if_cases (LeavesValid c) (not adapter.enabled || is_disabled state.status) (λ off. v)
        (λ on. elim (Option-cases state.active_run_id) [
          | inr (r, e) ↦ rw (e, accept_state) v
          | inl no_active ↦ elim (Option-cases state.pending_run_id) [
            | inr (r, e) ↦ rw (no_active, e, accept_state) v
            | inl no_pending ↦
                rw (no_active, no_pending)
                  (create_run-IsValid a₀ at state s v o known no_active no_pending)
          ]
        ])

  pub accept-IsValid :
      (a₀ : String) (at : ℕ) (s : Coordinator) → IsValid c s → IsValid c (accept c a₀ at s).1
  unfolding accept
  accept-IsValid a₀ at s v =
      if_cases (LeavesValid c) s.shutting_down (λ shut. v)
        (λ o. elim (Option-cases (s.adapters.get a₀)) [
          | inl missing ↦ rw (missing) v
          | inr (adapter, here) ↦
              let fresh = refresh_freshness-IsValid at s v in
              elim (Option-cases ((refresh_freshness c at s).states.get a₀)) [
                | inl lost ↦ rw (here, lost) v
                | inr (state, known) ↦
                    rw (here, known)
                      (accept_state-IsValid a₀ at adapter state (refresh_freshness c at s) fresh o
                        known)
              ]
        ])

  read_clock-IsValid :
      (s : Coordinator) → IsValid c s → IsValid c (record s { clock_reads = s.clock_reads + 1 })
  read_clock-IsValid s v = counted-IsValid (s.clock_reads + 1) s.run_calls s.request_calls s v

  pub trigger-IsValid : (a₀ : String) (s : Coordinator) → IsValid c s → IsValid c (trigger c a₀ s).1
  unfolding trigger
  trigger-IsValid a₀ s v = accept-IsValid a₀ (now c s) _ (read_clock-IsValid s v)

  accept_each-IsValid :
      (at : ℕ) (ids : List String) (s : Coordinator)
      → IsValid c s
      → IsValid c (accept_each c at ids s).1
  unfolding accept_each
  accept_each-IsValid at [] s v = v
  accept_each-IsValid at (a₀ ∷ ids) s v =
      let t = (accept c a₀ at s).1 in
      let w = accept-IsValid a₀ at s v in
      elim (Outcome-cases (accept c a₀ at s).0) [
        | inl (e, thrown) ↦ rw (thrown, accept_each) w
        | inr (result, done) ↦ elim (Outcome-cases (accept_each c at ids t).0) [
          | inl (e, thrown) ↦ rw (done, thrown, accept_each) (accept_each-IsValid at ids t w)
          | inr (results, all) ↦ rw (done, all, accept_each) (accept_each-IsValid at ids t w)
        ]
      ]

  accept_adapters-IsValid :
      (ids : List String) (s : Coordinator) → IsValid c s → IsValid c (accept_adapters c ids s).1
  unfolding accept_adapters
  accept_adapters-IsValid ids s v =
      let called = record s {
        clock_reads = s.clock_reads + 1;
        request_calls = s.request_calls + 1;
      } in
      let w = counted-IsValid (s.clock_reads + 1) s.run_calls (s.request_calls + 1) s v in
      if_cases (LeavesValid c) s.shutting_down (λ shut. v)
        (λ o.
          if_cases (LeavesValid c) (is_blank (c.request_id_factory s.request_calls)) (λ blank. w)
            (λ named. elim (Outcome-cases (accept_each c (now c s) ids called).0) [
              | inl (e, thrown) ↦ rw (thrown) (accept_each-IsValid (now c s) ids called w)
              | inr (results, done) ↦ rw (done) (accept_each-IsValid (now c s) ids called w)
            ]))

  pub manual_sync-IsValid :
      (id : Option String) (s : Coordinator) → IsValid c s → IsValid c (manual_sync c id s).1
  unfolding manual_sync
  manual_sync-IsValid none s v = accept_adapters-IsValid _ s v
  manual_sync-IsValid (some id) s v = accept_adapters-IsValid (id ∷ []) s v

  pub start_initial_sync-IsValid :
      (ids : Option (List String)) (s : Coordinator)
      → IsValid c s
      → IsValid c (start_initial_sync c ids s).1
  unfolding start_initial_sync
  start_initial_sync-IsValid none s v = manual_sync-IsValid none s v
  start_initial_sync-IsValid (some ids) s v = elim (Outcome-cases (enabled_of c s ids)) [
    | inl (e, thrown) ↦ rw (thrown, start_initial_sync) v
    | inr (kept, all) ↦ rw (all, start_initial_sync) (accept_adapters-IsValid kept s v)
  ]
