-- ===== src/Sync/Coordinator/Guarantees.antt =====
-- What a coordinator promises its callers, after any events.
use text.Mathlib.TextPositions.{eq_refl}
use agent_metrics.Prelude.{
  ℕ, ◌+◌, ◌<◌, ◌≤◌, ◌≡◌, String, false, ◌⊎◌, ◌↔◌, Option, none, some, List, inl, inr, arith,
  Option-cases, length,
}
use agent_metrics.Prelude.Texts.{contains}
use agent_metrics.Sync.Types.{SyncRun}
use agent_metrics.Sync.Utils.{JsNumber, ok, normalize_concurrency, Outcome-cases}
use agent_metrics.Sync.Coordinator.{Config, InternalRun, Coordinator, is_terminal}
use agent_metrics.Sync.Coordinator.Maintenance.{is_expired, prune_runs}
use agent_metrics.Sync.Coordinator.Creation.{Options, create, configure}
use agent_metrics.Sync.Coordinator.Invariant.{
  IsValid, syncing_at, active_is_unique, pending_is_unique,
}
use agent_metrics.Sync.Coordinator.Events.{Event, run, run-create-IsValid}

normalize_concurrency-le : (o : Option JsNumber) (n : ℕ) → normalize_concurrency o ≡ ok n → n ≤ 2
unfolding normalize_concurrency
normalize_concurrency-le o n e = ground arith

configure-concurrency : (o : Options) (c : Config) → configure o ≡ ok c → c.concurrency ≤ 2
unfolding configure
configure-concurrency o c e = elim (Outcome-cases (normalize_concurrency o.max_concurrency)) [
  | inl (error, thrown) ↦ absurd (ground arith)
  | inr (n, kept) ↦ ground (arith, normalize_concurrency-le o.max_concurrency n kept)
]

create-concurrency :
    (o : Options) {c : Config} {s : Coordinator} → create o ≡ ok (c, s) → c.concurrency ≤ 2
unfolding create
create-concurrency o {c} {s} e = elim (Outcome-cases (configure o)) [
  | inl (error, thrown) ↦ absurd (ground arith)
  | inr (c', made) ↦ ground (arith, configure-concurrency o c' made)
]

-- However a coordinator is created and whatever happens to it, at most two runs are in their slots,
-- and the slots hold exactly the runs that are syncing.
pub slots_bounded :
    (o : Options) (es : List Event) {c : Config} {s : Coordinator}
    → create o ≡ ok (c, s)
    → (length (run c es s).active_run_ids ≤ 2)
      × ((r : String)
          → contains (run c es s).active_run_ids r ≡ syncing_at ((run c es s).runs.get r))
slots_bounded o es {c} {s} e =
    let v = run-create-IsValid o es e in
    (omega (arith, v.listed.bounded, create-concurrency o e), v.listed.slots)

open_run_unique :
    (c : Config) (s : Coordinator) (r q : String) (i j : InternalRun)
    → IsValid c s
    → s.runs.get r ≡ some i
    → s.runs.get q ≡ some j
    → is_terminal i.run.status ≡ false
    → is_terminal j.run.status ≡ false
    → i.run.adapter_instance_id ≡ j.run.adapter_instance_id
    → r ≡ q
open_run_unique c s r q i j v f g open_r open_q same =
    let a = i.run.adapter_instance_id in
    ground (
      arith,
      v.linked.active a r,
      v.linked.active a q,
      v.linked.pending a r,
      v.linked.pending a q,
      v.linked.exclusive a,
      eq_refl a,
      active_is_unique (s.states.get a) r q,
      pending_is_unique (s.states.get a) r q,
    )

-- However a coordinator is created and whatever happens to it, no adapter has two runs that are
-- accepted and not ended: two such runs have one id.
pub one_run_per_adapter :
    (o : Options) (es : List Event) (r q : String) (i j : InternalRun) {c : Config}
    {s : Coordinator}
    → create o ≡ ok (c, s)
    → (run c es s).runs.get r ≡ some i
    → (run c es s).runs.get q ≡ some j
    → is_terminal i.run.status ≡ false
    → is_terminal j.run.status ≡ false
    → i.run.adapter_instance_id ≡ j.run.adapter_instance_id
    → r ≡ q
one_run_per_adapter o es r q i j {c} {s} e =
    open_run_unique c (run c es s) r q i j (run-create-IsValid o es e)

-- The row of the store under the id, where there is a store.
abbrev pub stored : Coordinator → String → Option SyncRun
stored s r = elim s.persistence [ none ↦ none | some table ↦ table.get r ]

module _ (c : Config) where
  -- The run has no end yet, or it was completed less than the retention time ago.
  abbrev pub IsKept : ℕ → SyncRun → Type 0
  IsKept at run =
      (run.completed_at ≡ none)
      ⊎ ((done : ℕ) × (run.completed_at ≡ some done) × (at < done + c.run_retention_ms))

  kept-not_expired : (at : ℕ) (run : SyncRun) → IsKept at run → is_expired c at run ≡ false
  unfolding is_expired
  kept-not_expired at run (inl none_yet) = ground arith
  kept-not_expired at run (inr (done, e, recent)) = ground arith

  IsKept-not_expired : (at : ℕ) (run : SyncRun) → (is_expired c at run ≡ false) ↔ IsKept at run
  unfolding is_expired
  IsKept-not_expired at run = elim (Option-cases run.completed_at) [
    | inl open_ ↦ (λ h. inl open_, λ k. ground arith)
    | inr (done, e) ↦ (λ h. inr (done, e, ground arith), λ k. kept-not_expired at run k)
  ]

  prune_runs-run :
      (at : ℕ) (s : Coordinator) (r : String) (i : InternalRun)
      → ((prune_runs c at s).runs.get r ≡ some i) ↔ ((s.runs.get r ≡ some i) × IsKept at i.run)
  unfolding prune_runs
  prune_runs-run at s r i = (
    λ h. (ground arith, (IsKept-not_expired at i.run).0 (ground arith)),
    λ h. ground (arith, h.0, (IsKept-not_expired at i.run).1 h.1),
  )

  prune_runs-record :
      (at : ℕ) (s : Coordinator) (r : String) (q : SyncRun)
      → ((prune_runs c at s).persisted_runs.get r ≡ some q)
        ↔ ((s.persisted_runs.get r ≡ some q) × IsKept at q)
  unfolding prune_runs
  prune_runs-record at s r q = (
    λ h. (ground arith, (IsKept-not_expired at q).0 (ground arith)),
    λ h. ground (arith, h.0, (IsKept-not_expired at q).1 h.1),
  )

  -- No run and no record of an earlier process under the id has to go.
  abbrev pub IsKeptAt : ℕ → Coordinator → String → Type 0
  IsKeptAt at s r =
      ((i : InternalRun) → s.runs.get r ≡ some i → IsKept at i.run)
      × ((q : SyncRun) → s.persisted_runs.get r ≡ some q → IsKept at q)

  stored-run :
      (at : ℕ) (s : Coordinator) (r : String) (row : SyncRun) (i : InternalRun)
      → stored (prune_runs c at s) r ≡ some row
      → s.runs.get r ≡ some i
      → is_expired c at i.run ≡ false
  unfolding prune_runs
  stored-run at s r row i h found = elim (Option-cases s.persistence) [
    | inl no_store ↦ absurd (ground arith)
    | inr (table, e) ↦ ground arith
  ]

  stored-record :
      (at : ℕ) (s : Coordinator) (r : String) (row q : SyncRun)
      → stored (prune_runs c at s) r ≡ some row
      → s.persisted_runs.get r ≡ some q
      → is_expired c at q ≡ false
  unfolding prune_runs
  stored-record at s r row q h found = elim (Option-cases s.persistence) [
    | inl no_store ↦ absurd (ground arith)
    | inr (table, e) ↦ ground arith
  ]

  prune_runs-stored :
      (at : ℕ) (s : Coordinator) (r : String) (row : SyncRun)
      → (stored (prune_runs c at s) r ≡ some row) ↔ ((stored s r ≡ some row) × IsKeptAt at s r)
  unfolding prune_runs
  prune_runs-stored at s r row = (
    λ h. (
      elim (Option-cases s.persistence) [
        | inl no_store ↦ ground arith
        | inr (table, e) ↦ ground arith
      ],
      (
        λ i found. (IsKept-not_expired at i.run).0 (stored-run at s r row i h found),
        λ q found. (IsKept-not_expired at q).0 (stored-record at s r row q h found),
      ),
    ),
    λ (there, (runs, records)). elim (Option-cases (s.runs.get r)) [
      | inl no_run ↦ elim (Option-cases (s.persisted_runs.get r)) [
        | inl no_record ↦ ground arith
        | inr (q, e) ↦ ground (arith, kept-not_expired at q (records q e))
      ]
      | inr (i, e) ↦
          let kept = kept-not_expired at i.run (runs i e) in
          elim (Option-cases (s.persisted_runs.get r)) [
            | inl no_record ↦ ground arith
            | inr (q, e') ↦ ground (arith, kept-not_expired at q (records q e'))
          ]
    ],
  )

  open-IsKept :
      (at : ℕ) (s : Coordinator) (r : String) (i : InternalRun)
      → IsValid c s
      → s.runs.get r ≡ some i
      → is_terminal i.run.status ≡ false
      → IsKept at i.run
  open-IsKept at s r i v found open_ = inl (ground (arith, v.linked.dated r))

-- Pruning a valid coordinator removes exactly what was completed the retention time ago or earlier:
-- a run, or a record of an earlier process, is there afterwards exactly where it was there and has
-- no end or one less than the retention time ago; a row of the store is there exactly where it was
-- and neither the run nor the record under its id has to go; and a run that is open stays as it was.
pub prune_runs_exact :
    (c : Config) (at : ℕ) (s : Coordinator) (r : String) (i : InternalRun) (q : SyncRun)
    → IsValid c s
    → (((prune_runs c at s).runs.get r ≡ some i) ↔ ((s.runs.get r ≡ some i) × IsKept c at i.run))
      × (((prune_runs c at s).persisted_runs.get r ≡ some q)
          ↔ ((s.persisted_runs.get r ≡ some q) × IsKept c at q))
      × ((stored (prune_runs c at s) r ≡ some q) ↔ ((stored s r ≡ some q) × IsKeptAt c at s r))
      × ((s.runs.get r ≡ some i)
          → is_terminal i.run.status ≡ false
          → (prune_runs c at s).runs.get r ≡ some i)
prune_runs_exact c at s r i q v = (
  prune_runs-run c at s r i,
  prune_runs-record c at s r q,
  prune_runs-stored c at s r q,
  λ found open_. (prune_runs-run c at s r i).1 (found, open-IsKept c at s r i v found open_),
)
