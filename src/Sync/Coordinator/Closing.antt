-- ===== src/Sync/Coordinator/Closing.antt =====
-- `shutdown` aborts every accepted run, restores the adapters and leaves no work behind.
use text.Mathlib.TextEquality.{eq_iff}
use agent_metrics.Prelude.{
  ℕ, ◌+◌, ◌≡◌, refl, String, Bool, true, false, not, ◌&&◌, ◌||◌, none, some, [], ◌∷◌, ◌++◌, List,
  inl, inr, arith, Option-cases, if_cases, ap, subst, ◌∙◌, sym,
}
use agent_metrics.Prelude.Texts.{◌=s◌, contains, contains-append, IsNodup}
use agent_metrics.Sync.Coordinator.{Config, InternalRun, Coordinator, now}
use agent_metrics.Sync.Coordinator.Completion.{abort_run}
use agent_metrics.Sync.Coordinator.Maintenance.{abort_all, shutdown, stop_periodic_sync}
use agent_metrics.Sync.Coordinator.Invariant.{IsLinked, IsListed, IsValid, queued_at, syncing_at}
use agent_metrics.Sync.Coordinator.Ending.{abort_run-IsLinked}

-- The run under the id is accepted and has not ended.
abbrev pub is_open_at : Coordinator → String → Bool
is_open_at s r = queued_at (s.runs.get r) || syncing_at (s.runs.get r)

module _ (c : Config) where
  abort_run-open :
      (r₀ : String) (at : ℕ) (i : InternalRun) (s : Coordinator) (r : String)
      → s.runs.get r₀ ≡ some i
      → is_open_at (abort_run c r₀ at i s) r ≡ (not (r₀ =s r) && is_open_at s r)
  unfolding abort_run
  abort_run-open r₀ at i s r found = ground (arith, eq_iff r₀ r)

  abort_run-frame :
      (r₀ : String) (at : ℕ) (i : InternalRun) (s : Coordinator)
      → ((abort_run c r₀ at i s).queued_run_ids ≡ s.queued_run_ids)
        × ((abort_run c r₀ at i s).shutting_down ≡ s.shutting_down)
  unfolding abort_run
  abort_run-frame r₀ at i s = (ground arith, ground arith)

  abort_all-missing :
      (at : ℕ) (r₀ : String) (ids : List String) (s : Coordinator)
      → s.runs.get r₀ ≡ none
      → abort_all c at (r₀ ∷ ids) s ≡ abort_all c at ids s
  unfolding abort_all
  abort_all-missing at r₀ ids s missing = rw missing

  abort_all-found :
      (at : ℕ) (r₀ : String) (ids : List String) (s : Coordinator) (i : InternalRun)
      → s.runs.get r₀ ≡ some i
      → abort_all c at (r₀ ∷ ids) s ≡ abort_all c at ids (abort_run c r₀ at i s)
  unfolding abort_all
  abort_all-found at r₀ ids s i found = rw found

  -- After the loop a run is open only if it was, and its id is not in the list.
  abort_all-open :
      (at : ℕ) (ids : List String) (s : Coordinator) (r : String)
      → is_open_at (abort_all c at ids s) r ≡ (not (contains ids r) && is_open_at s r)
  unfolding abort_all contains
  abort_all-open at [] s r = ground arith
  abort_all-open at (r₀ ∷ ids) s r = elim (Option-cases (s.runs.get r₀)) [
    | inl missing ↦
        ap (λ t. is_open_at t r) (abort_all-missing at r₀ ids s missing)
        ∙ abort_all-open at ids s r
        ∙ ground (arith, eq_iff r₀ r)
    | inr (i, found) ↦
        ap (λ t. is_open_at t r) (abort_all-found at r₀ ids s i found)
        ∙ abort_all-open at ids (abort_run c r₀ at i s) r
        ∙ ground (arith, abort_run-open r₀ at i s r found)
  ]

  abort_all-frame :
      (at : ℕ) (ids : List String) (s : Coordinator)
      → ((abort_all c at ids s).queued_run_ids ≡ s.queued_run_ids)
        × ((abort_all c at ids s).shutting_down ≡ s.shutting_down)
  unfolding abort_all
  abort_all-frame at [] s = (refl, refl)
  abort_all-frame at (r₀ ∷ ids) s = elim (Option-cases (s.runs.get r₀)) [
    | inl missing ↦ rw (missing, abort_all) (abort_all-frame at ids s)
    | inr (i, found) ↦
        let t = abort_run c r₀ at i s in
        let (queue, shut) = abort_all-frame at ids t in
        let (queue', shut') = abort_run-frame r₀ at i s in
        rw (found, abort_all) (queue ∙ queue', shut ∙ shut')
  ]

  abort_all-IsLinked :
      (at : ℕ) (ids : List String) (s : Coordinator) → IsLinked s → IsLinked (abort_all c at ids s)
  unfolding abort_all
  abort_all-IsLinked at [] s v = v
  abort_all-IsLinked at (r₀ ∷ ids) s v = elim (Option-cases (s.runs.get r₀)) [
    | inl missing ↦ rw (missing) (abort_all-IsLinked at ids s v)
    | inr (i, found) ↦
        rw (found) (abort_all-IsLinked at ids _ (abort_run-IsLinked c s r₀ i found at v))
  ]

  -- The coordinator in which `shutdown` starts its loop.
  stopping : Coordinator → Coordinator
  stopping s =
      let stopped = stop_periodic_sync (record s { shutting_down = true }) in
      record stopped { clock_reads = s.clock_reads + 1; queued_run_ids = [] }

  stopping-runs :
      (s : Coordinator)
      → ((stopping s).runs ≡ s.runs)
        × ((stopping s).shutting_down ≡ true)
        × ((stopping s).queued_run_ids ≡ [])
  unfolding stopping stop_periodic_sync
  stopping-runs s = (ground arith, ground arith, ground arith)

  stopping-IsLinked : (s : Coordinator) → IsLinked s → IsLinked (stopping s)
  unfolding stopping stop_periodic_sync
  stopping-IsLinked s v = record {
    active = λ b r. ground (arith, v.active b r);
    pending = λ b r. ground (arith, v.pending b r);
    exclusive = λ b. ground (arith, v.exclusive b);
    dated = λ r. ground (arith, v.dated r);
    idle = λ r. ground (arith, v.idle r);
    paired = λ b. ground (arith, v.paired b);
  }

  stopped_at : Coordinator → Coordinator
  stopped_at s = abort_all c (now c s) (s.queued_run_ids ++ s.active_run_ids) (stopping s)

  shutdown-first :
      (s : Coordinator)
      → s.shutting_down ≡ false
      → shutdown c s ≡ record (stopped_at s) { active_run_ids = [] }
  unfolding shutdown stopped_at stopping
  shutdown-first s o =
      if_cases (λ t. t ≡ record (stopped_at s) { active_run_ids = [] }) s.shutting_down (λ shut. cc)
        (λ _. refl)

  -- Every run that was accepted is in one of the two lists.
  stopped-open : (s : Coordinator) (r : String) → IsListed c s → is_open_at (stopped_at s) r ≡ false
  unfolding stopped_at
  stopped-open s r l =
      abort_all-open (now c s) (s.queued_run_ids ++ s.active_run_ids) (stopping s) r
      ∙ ground (
        arith,
        (stopping-runs s).0,
        contains-append s.queued_run_ids s.active_run_ids r,
        l.queue r,
        l.slots r,
      )

  stopped-IsLinked : (s : Coordinator) → IsLinked s → IsLinked (stopped_at s)
  unfolding stopped_at
  stopped-IsLinked s v = abort_all-IsLinked _ _ (stopping s) (stopping-IsLinked s v)

  stopped-frame :
      (s : Coordinator)
      → ((stopped_at s).queued_run_ids ≡ []) × ((stopped_at s).shutting_down ≡ true)
  unfolding stopped_at
  stopped-frame s =
      let (queue, shut) =
        abort_all-frame (now c s) (s.queued_run_ids ++ s.active_run_ids) (stopping s) in
      let (runs, closed, none_left) = stopping-runs s in (queue ∙ none_left, shut ∙ closed)

  stopped-IsValid :
      (s : Coordinator) → IsValid c s → IsValid c (record (stopped_at s) { active_run_ids = [] })
  unfolding contains
  stopped-IsValid s v =
      let w = stopped-IsLinked s v.linked in
      let queue = (stopped-frame s).0 in
      record {
        linked = record {
          active = w.active;
          pending = w.pending;
          exclusive = w.exclusive;
          dated = w.dated;
          idle = w.idle;
          paired = w.paired;
        };
        listed = record {
          bounded = omega arith;
          distinct = subst IsNodup (sym queue) tt;
          queue = λ r. ap (λ ids. contains ids r) queue ∙ ground (arith, stopped-open s r v.listed);
          slots = λ r. ground (arith, stopped-open s r v.listed);
          closed = λ h r. stopped-open s r v.listed;
        };
      }

  pub shutdown-IsValid : (s : Coordinator) → IsValid c s → IsValid c (shutdown c s)
  unfolding shutdown stopped_at stopping
  shutdown-IsValid s v = if_cases (IsValid c) s.shutting_down (λ shut. v) (λ o. stopped-IsValid s v)

  pub shutdown-lists :
      (s : Coordinator)
      → s.shutting_down ≡ false
      → ((shutdown c s).active_run_ids ≡ [])
        × ((shutdown c s).queued_run_ids ≡ [])
        × ((shutdown c s).shutting_down ≡ true)
  shutdown-lists s o =
      let same = shutdown-first s o in
      (
        ap (λ t. t.active_run_ids) same,
        ap (λ t. t.queued_run_ids) same ∙ (stopped-frame s).0,
        ap (λ t. t.shutting_down) same ∙ (stopped-frame s).1,
      )
