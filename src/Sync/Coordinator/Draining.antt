-- ===== src/Sync/Coordinator/Draining.antt =====
-- `drainQueue` keeps the invariant, and stops only with an empty queue or with no free slot.
use text.Mathlib.TextEquality.{eq_iff}
use text.Mathlib.TextPositions.{eq_refl}
use agent_metrics.Prelude.{
  ◌≤◌, ◌<◌, ◌≡◌, refl, sym, ◌∙◌, ap, String, true, false, ◌⊎◌, inl, inr, some, subst, List, [], ◌∷◌,
  length, arith, ltb, ltb→lt, Bool-cases, Option-cases,
}
use agent_metrics.Prelude.Texts.{contains, IsNodup}
use agent_metrics.Sync.Types.{SyncAdapterState}
use agent_metrics.Sync.Coordinator.{Config, InternalRun, Coordinator, is_queued}
use agent_metrics.Sync.Coordinator.Runs.{start_run, start_shifted, drain_from, drain_queue}
use agent_metrics.Sync.Coordinator.Invariant.{IsLinked, IsListed, IsValid}
use agent_metrics.Sync.Coordinator.Starting.{
  start_run-IsLinked, start_run-IsListed, start_run-open, start_run-queue,
}

abbrev with_queue : List String → Coordinator → Coordinator
with_queue q s = record s { queued_run_ids = q }

module _ (c : Config) where
  -- What a shift followed by a start leaves.
  record IsShifted (q : List String) (t : Coordinator) : Type 0 where
    valid : IsValid c t
    queue : t.queued_run_ids ≡ q
    opened : t.shutting_down ≡ false

  with_queue-IsLinked : (q : List String) (s : Coordinator) → IsLinked s → IsLinked (with_queue q s)
  with_queue-IsLinked q s v = record {
    active = v.active;
    pending = v.pending;
    exclusive = v.exclusive;
    dated = v.dated;
    idle = v.idle;
    paired = v.paired;
  }

  -- The run of an id that waits in the queue, and the state of its adapter.
  queue-run :
      (r : String) (q : List String) (s : Coordinator)
      → s.queued_run_ids ≡ r ∷ q
      → IsListed c s
      → (i : InternalRun) × (s.runs.get r ≡ some i) × (is_queued i.run.status ≡ true)
  unfolding contains
  queue-run r q s e l = elim (Option-cases (s.runs.get r)) [
    | inl missing ↦ absurd (ground (arith, l.queue r, eq_refl r, ap (λ ids. contains ids r) e))
    | inr (i, found) ↦
        (i, found, ground (arith, l.queue r, eq_refl r, ap (λ ids. contains ids r) e))
  ]

  pub queued-state :
      (r : String) (s : Coordinator) (i : InternalRun)
      → IsLinked s
      → s.runs.get r ≡ some i
      → is_queued i.run.status ≡ true
      → (state : SyncAdapterState) × (s.states.get i.run.adapter_instance_id ≡ some state)
  queued-state r s i v found waits =
      let a₀ = i.run.adapter_instance_id in
      elim (Option-cases (s.states.get a₀)) [
        | inl missing ↦ absurd (ground (arith, v.pending a₀ r, eq_refl a₀))
        | inr known ↦ known
      ]

  start_shifted-eq :
      (r : String) (s : Coordinator) (i : InternalRun)
      → s.runs.get r ≡ some i
      → is_queued i.run.status ≡ true
      → start_shifted c r s ≡ start_run c r i s
  unfolding start_shifted
  start_shifted-eq r s i found waits = ground arith

  start_run-IsShifted :
      (r : String) (q : List String) (s : Coordinator) (i : InternalRun) (state : SyncAdapterState)
      → s.queued_run_ids ≡ r ∷ q
      → s.shutting_down ≡ false
      → length s.active_run_ids < c.concurrency
      → IsValid c s
      → s.runs.get r ≡ some i
      → is_queued i.run.status ≡ true
      → s.states.get i.run.adapter_instance_id ≡ some state
      → IsShifted q (start_run c r i (with_queue q s))
  unfolding contains
  start_run-IsShifted r q s i state e o room v found waits known = record {
    valid = record {
      linked =
          start_run-IsLinked c (with_queue q s) r i found waits (with_queue-IsLinked q s v.linked);
      listed =
          start_run-IsListed c (with_queue q s) r i state found waits known o room nodup.1
            (λ x. ground (arith, v.listed.queue x, at x, nodup.0, eq_iff r x)) v.listed.slots;
    };
    queue = start_run-queue c (with_queue q s) r i state found waits known o;
    opened = start_run-open c (with_queue q s) r i state found waits known o;
  }
    where
      at : (x : String) → contains s.queued_run_ids x ≡ contains (r ∷ q) x
      at x = ap (λ ids. contains ids x) e

      nodup : (contains q r ≡ false) × IsNodup q
      nodup = subst IsNodup e v.listed.distinct

  -- Where the loop ends: the invariant holds, and no run waits beside a free slot.
  pub record IsDrained (t : Coordinator) : Type 0 where
    pub valid : IsValid c t
    pub full : (t.queued_run_ids ≡ []) ⊎ (c.concurrency ≤ length t.active_run_ids)

  drain_from-step :
      (r : String) (q : List String) (s : Coordinator)
      → s.shutting_down ≡ false
      → ltb (length s.active_run_ids) c.concurrency ≡ true
      → drain_from c (r ∷ q) s ≡ drain_from c q (start_shifted c r (with_queue q s))
  unfolding drain_from
  drain_from-step r q s o room = ground arith

  drain_from-stop :
      (r : String) (q : List String) (s : Coordinator)
      → ltb (length s.active_run_ids) c.concurrency ≡ false
      → drain_from c (r ∷ q) s ≡ s
  unfolding drain_from
  drain_from-stop r q s none_free = ground arith

  drain_from-IsDrained :
      (q : List String) (s : Coordinator)
      → s.queued_run_ids ≡ q
      → s.shutting_down ≡ false
      → IsValid c s
      → IsDrained (drain_from c q s)
  unfolding drain_from
  drain_from-IsDrained [] s e o v = record { valid = v; full = inl e }
  drain_from-IsDrained (r ∷ q) s e o v =
      elim (Bool-cases (ltb (length s.active_run_ids) c.concurrency)) [
        | inl room ↦
            let (i, found, waits) = queue-run r q s e v.listed in
            let (state, known) = queued-state r s i v.linked found waits in
            let next =
              start_run-IsShifted r q s i state e o (ltb→lt _ _ room) v found waits known in
            let same = start_shifted-eq r (with_queue q s) i found waits in
            subst IsDrained (sym (drain_from-step r q s o room ∙ ap (drain_from c q) same)) (
              drain_from-IsDrained q (start_run c r i (with_queue q s)) next.queue next.opened
                next.valid)
        | inr none_free ↦
            subst IsDrained (sym (drain_from-stop r q s none_free))
              (record { valid = v; full = inr (ground arith) })
      ]

  pub drain_queue-IsDrained :
      (s : Coordinator) → s.shutting_down ≡ false → IsValid c s → IsDrained (drain_queue c s)
  unfolding drain_queue
  drain_queue-IsDrained s o v = drain_from-IsDrained s.queued_run_ids s refl o v
