-- ===== src/Sync/Coordinator/Invariant.antt =====
-- What holds of a coordinator between two events, stated by tests on the state of an adapter and on
-- the run under an id, which are `false` where there is none.
use agent_metrics.Prelude.{
  ◌≤◌, ◌≡◌, String, Bool, true, false, not, ◌&&◌, ◌||◌, Option, none, some, is_some, length, inl,
  inr, arith, Option-cases,
}
use text.Mathlib.TextEquality.{eq_iff}
use agent_metrics.Prelude.Texts.{◌=s◌, contains, IsNodup}
use agent_metrics.Prelude.Maps.{has}
use agent_metrics.Sync.Types.{SyncAdapterState}
use agent_metrics.Sync.Coordinator.{
  Config, InternalRun, Coordinator, is_queued, is_syncing, is_terminal,
}

abbrev pub names : Option String → String → Bool
names none run_id = false
names (some id) run_id = id =s run_id

abbrev pub active_is : Option SyncAdapterState → String → Bool
active_is none run_id = false
active_is (some state) run_id = names state.active_run_id run_id

abbrev pub pending_is : Option SyncAdapterState → String → Bool
pending_is none run_id = false
pending_is (some state) run_id = names state.pending_run_id run_id

-- A state names one pending run, and one active run, at most.
pub pending_is_unique :
    (o : Option SyncAdapterState) (r q : String)
    → pending_is o r ≡ true
    → pending_is o q ≡ true
    → r ≡ q
pending_is_unique none r q h k = cc
pending_is_unique (some state) r q h k = elim (Option-cases state.pending_run_id) [
  | inl e ↦ ground arith
  | inr (id, e) ↦ ground (arith, eq_iff id r, eq_iff id q)
]

pub active_is_unique :
    (o : Option SyncAdapterState) (r q : String)
    → active_is o r ≡ true
    → active_is o q ≡ true
    → r ≡ q
active_is_unique none r q h k = cc
active_is_unique (some state) r q h k = elim (Option-cases state.active_run_id) [
  | inl e ↦ ground arith
  | inr (id, e) ↦ ground (arith, eq_iff id r, eq_iff id q)
]

-- Not both an active and a pending run.
abbrev pub is_exclusive : Option SyncAdapterState → Bool
is_exclusive none = true
is_exclusive (some state) = not (is_some state.active_run_id && is_some state.pending_run_id)

abbrev pub runs_for : Option InternalRun → String → Bool
runs_for none adapter_id = false
runs_for (some internal) adapter_id = internal.run.adapter_instance_id =s adapter_id

abbrev pub queued_at : Option InternalRun → Bool
queued_at none = false
queued_at (some internal) = is_queued internal.run.status

abbrev pub syncing_at : Option InternalRun → Bool
syncing_at none = false
syncing_at (some internal) = is_syncing internal.run.status

-- The run has an end exactly when its status is final.
abbrev pub is_dated : Option InternalRun → Bool
is_dated none = true
is_dated (some internal) =
    (is_terminal internal.run.status && is_some internal.run.completed_at)
    || (not (is_terminal internal.run.status) && not (is_some internal.run.completed_at))

-- The state that an abort restores has no run.
abbrev pub restores_idle : Option InternalRun → Bool
restores_idle none = true
restores_idle (some internal) =
    not (is_some internal.restore.active_run_id) && not (is_some internal.restore.pending_run_id)

-- Between the states of the adapters and the runs.
pub record IsLinked (s : Coordinator) : Type 0 where
  pub active :
      (a r : String)
      → active_is (s.states.get a) r ≡ (syncing_at (s.runs.get r) && runs_for (s.runs.get r) a)
  pub pending :
      (a r : String)
      → pending_is (s.states.get a) r ≡ (queued_at (s.runs.get r) && runs_for (s.runs.get r) a)
  pub exclusive : (a : String) → is_exclusive (s.states.get a) ≡ true
  pub dated : (r : String) → is_dated (s.runs.get r) ≡ true
  pub idle : (r : String) → restores_idle (s.runs.get r) ≡ true
  pub paired : (a : String) → has s.adapters a ≡ has s.states a

-- Between the two lists of ids and the runs.
pub record IsListed (c : Config) (s : Coordinator) : Type 0 where
  pub bounded : length s.active_run_ids ≤ c.concurrency
  pub distinct : IsNodup s.queued_run_ids
  pub queue : (r : String) → contains s.queued_run_ids r ≡ queued_at (s.runs.get r)
  pub slots : (r : String) → contains s.active_run_ids r ≡ syncing_at (s.runs.get r)
  pub closed :
      s.shutting_down ≡ true
      → (r : String) → (queued_at (s.runs.get r) || syncing_at (s.runs.get r)) ≡ false

pub record IsValid (c : Config) (s : Coordinator) : Type 0 where
  pub linked : IsLinked s
  pub listed : IsListed c s

-- The state that a method leaves is valid.
abbrev pub LeavesValid : {A : Type 0} → Config → A × Coordinator → Type 0
LeavesValid c result = IsValid c result.1
