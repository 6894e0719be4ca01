-- ===== src/Sync/Coordinator/Answering.antt =====
-- What `accept` answers its callers: the id of a run that it has accepted.
use text.Mathlib.TextPositions.{eq_refl}
use text.Mathlib.TextEquality.{eq_iff}
use agent_metrics.Prelude.{
  ℕ, ◌+◌, ◌≡◌, refl, String, true, false, not, ◌||◌, some, if_cases, inl, inr, arith, Option-cases,
  ltb, length, subst,
}
use agent_metrics.Prelude.Maps.{has, put}
use agent_metrics.Sync.Types.{SyncAdapter, SyncAdapterState, SyncTriggerResult, SyncRunStatus}
use agent_metrics.Sync.Utils.{Outcome, ok, throws, is_blank, ok-injective, snapshot_state}
use agent_metrics.Sync.Coordinator.{
  Config, InternalRun, Coordinator, is_terminal, is_disabled, is_queued, refresh_freshness, now,
  persist_run,
}
use agent_metrics.Sync.Coordinator.Runs.{start_run}
use agent_metrics.Sync.Coordinator.Methods.{new_run, place_run, create_run, accept_state, accept}
use agent_metrics.Sync.Coordinator.Invariant.{IsValid, syncing_at, queued_at, runs_for}
use agent_metrics.Sync.Coordinator.Triggering.{refresh_freshness-IsValid}

-- A run of the adapter that has not ended stands under the id.
abbrev pub HasOpen : Coordinator → String → String → Type 0
HasOpen s id run_id =
    (i : InternalRun) × (s.runs.get run_id ≡ some i)
    × (i.run.adapter_instance_id ≡ id)
    × (is_terminal i.run.status ≡ false)

syncing-HasOpen :
    (s : Coordinator) (id r : String)
    → syncing_at (s.runs.get r) ≡ true
    → runs_for (s.runs.get r) id ≡ true
    → HasOpen s id r
syncing-HasOpen s id r h k = elim (Option-cases (s.runs.get r)) [
  | inl missing ↦ absurd (ground arith)
  | inr (i, found) ↦ (i, found, ground (arith, eq_iff i.run.adapter_instance_id id), ground arith)
]

queued-HasOpen :
    (s : Coordinator) (id r : String)
    → queued_at (s.runs.get r) ≡ true
    → runs_for (s.runs.get r) id ≡ true
    → HasOpen s id r
queued-HasOpen s id r h k = elim (Option-cases (s.runs.get r)) [
  | inl missing ↦ absurd (ground arith)
  | inr (i, found) ↦ (i, found, ground (arith, eq_iff i.run.adapter_instance_id id), ground arith)
]

-- What holds of an answer and the state it comes with.
abbrev pub Answers : String → Outcome SyncTriggerResult × Coordinator → Type 0
Answers id (ok res, s) = HasOpen s id res.run_id
Answers id (throws e, s) = Unit {0}

Answers-ok :
    (id : String) (p : Outcome SyncTriggerResult × Coordinator) (res : SyncTriggerResult)
    → Answers id p
    → p.0 ≡ ok res
    → HasOpen p.1 id res.run_id
Answers-ok id (ok q, s) res a e =
    subst (λ (x : SyncTriggerResult). HasOpen s id x.run_id) (ok-injective e) a
Answers-ok id (throws x, s) res a e = absurd (ground arith)

module _ (c : Config) where
  start_run-HasOpen :
      (r id : String) (i : InternalRun) (s : Coordinator)
      → s.runs.get r ≡ some i
      → i.run.adapter_instance_id ≡ id
      → is_terminal i.run.status ≡ false
      → HasOpen (start_run c r i s) id r
  unfolding start_run
  start_run-HasOpen r id i s found mine open_ =
      if_cases (λ (t : Coordinator). HasOpen t id r)
        (not (is_queued i.run.status) || s.shutting_down) (λ stays. (i, found, mine, open_))
        (λ starts. elim (Option-cases (s.states.get i.run.adapter_instance_id)) [
          | inl missing ↦ rw (missing) (i, found, mine, open_)
          | inr (state, known) ↦ rw (known) (
            record i {
              run = record (i.run) { status = SyncRunStatus.syncing; started_at = some (now c s) };
            },
            ground (arith, eq_refl r),
            mine,
            refl,
          )
        ])

  place_run-Answers :
      (r id : String) (at : ℕ) (state : SyncAdapterState) (s : Coordinator)
      → Answers id (place_run c r id at state s)
  unfolding place_run persist_run snapshot_state
  place_run-Answers r id at state s =
      let i : InternalRun = record {
        run = new_run c r id at;
        aborted = false;
        restore = snapshot_state state;
      } in
      let saved = persist_run i.run (record s { runs = put s.runs r i }) in
      if_cases (Answers id) (ltb (length saved.active_run_ids) c.concurrency)
        (λ room. start_run-HasOpen r id i saved (ground (arith, eq_refl r)) refl refl)
        (λ full. (i, ground (arith, eq_refl r), refl, refl))

  create_run-Answers :
      (id : String) (at : ℕ) (state : SyncAdapterState) (s : Coordinator)
      → Answers id (create_run c id at state s)
  unfolding create_run
  create_run-Answers id at state s =
      let r = c.run_id_factory id at s.run_calls in
      if_cases (Answers id) (is_blank r) (λ blank. tt)
        (λ named.
          if_cases (Answers id) (has s.runs r || has s.persisted_runs r) (λ taken. tt)
            (λ unused. place_run-Answers r id at state (record s { run_calls = s.run_calls + 1 })))

  accept_state-Answers :
      (id : String) (at : ℕ) (adapter : SyncAdapter) (state : SyncAdapterState) (s : Coordinator)
      → IsValid c s
      → s.states.get id ≡ some state
      → Answers id (accept_state c id at adapter state s)
  unfolding accept_state
  accept_state-Answers id at adapter state s v known =
      if_cases (Answers id) (not adapter.enabled || is_disabled state.status) (λ off. tt)
        (λ on. elim (Option-cases state.active_run_id) [
          | inr (r, e) ↦
              rw (e, accept_state)
                (syncing-HasOpen s id r (ground (arith, v.linked.active id r, eq_refl r))
                  (ground (arith, v.linked.active id r, eq_refl r)))
          | inl no_active ↦ elim (Option-cases state.pending_run_id) [
            | inr (r, e) ↦
                rw (no_active, e, accept_state)
                  (queued-HasOpen s id r (ground (arith, v.linked.pending id r, eq_refl r))
                    (ground (arith, v.linked.pending id r, eq_refl r)))
            | inl no_pending ↦ rw (no_active, no_pending) (create_run-Answers id at state s)
          ]
        ])

  accept-Answers :
      (id : String) (at : ℕ) (s : Coordinator) → IsValid c s → Answers id (accept c id at s)
  unfolding accept
  accept-Answers id at s v =
      if_cases (Answers id) s.shutting_down (λ shut. tt)
        (λ o. elim (Option-cases (s.adapters.get id)) [
          | inl missing ↦ rw (missing) tt
          | inr (adapter, here) ↦ elim (Option-cases ((refresh_freshness c at s).states.get id)) [
            | inl lost ↦ rw (here, lost) tt
            | inr (state, known) ↦
                rw (here, known)
                  (accept_state-Answers id at adapter state (refresh_freshness c at s)
                    (refresh_freshness-IsValid c at s v) known)
          ]
        ])

-- Where a valid coordinator accepts a trigger, whether it starts a run, queues it or answers with
-- one that was accepted before, the id in the answer is that of a run of the adapter that asked,
-- which the coordinator keeps and which has not ended.
pub accepted_run_open :
    (c : Config) (id : String) (at : ℕ) (s : Coordinator) (res : SyncTriggerResult)
    → IsValid c s
    → (accept c id at s).0 ≡ ok res
    → HasOpen (accept c id at s).1 id res.run_id
accepted_run_open c id at s res v e =
    Answers-ok id (accept c id at s) res (accept-Answers c id at s v) e
