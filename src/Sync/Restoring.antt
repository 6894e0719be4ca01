-- ===== src/Sync/Restoring.antt =====
-- What a process finds of the runs of an earlier one: `load` of apps/core/src/sync-run-store.ts.
use agent_metrics.Prelude.{
  ℕ, ◌≡◌, refl, String, Bool, true, false, not, ◌&&◌, none, some, List, [], ◌∷◌, arith, map, filter,
  Option-cases, Bool-cases, inl, inr, if_cases, ltb, ◌+◌, ap, ◌∙◌, subst, if◌then◌else◌,
}
use mathlib.Core.List.{Perm}
use mathlib.Core.List.Perm
use agent_metrics.Prelude.Maps.{JsMap, values}
use agent_metrics.Sync.Types.{SyncRun, SyncRunStatus}
use agent_metrics.Sync.Store.{insert, before, ordered, load, recovered, is_interrupted, is_selected}

-- The run has ended: it neither waits nor is at work.
abbrev pub has_ended : SyncRunStatus → Bool
has_ended SyncRunStatus.queued = false
has_ended SyncRunStatus.syncing = false
has_ended SyncRunStatus.succeeded = true
has_ended SyncRunStatus.failed = true
has_ended SyncRunStatus.aborted = true

is_interrupted-has_ended : (status : SyncRunStatus) → is_interrupted status ≡ not (has_ended status)
is_interrupted-has_ended SyncRunStatus.queued = refl
is_interrupted-has_ended SyncRunStatus.syncing = refl
is_interrupted-has_ended SyncRunStatus.succeeded = refl
is_interrupted-has_ended SyncRunStatus.failed = refl
is_interrupted-has_ended SyncRunStatus.aborted = refl

-- No run in the list is queued or syncing.
abbrev pub all_settled : List SyncRun → Bool
all_settled [] = true
all_settled (run ∷ runs) = has_ended run.status && all_settled runs

all_settled-map :
    (now_ms : ℕ) (runs : List SyncRun) → all_settled (map (recovered now_ms) runs) ≡ true
unfolding recovered
all_settled-map now_ms [] = refl
all_settled-map now_ms (run ∷ runs) =
    ground (arith, all_settled-map now_ms runs, is_interrupted-has_ended run.status)

-- A run of the table that is queued or syncing has no end yet.
abbrev pub IsDated : JsMap SyncRun → Type 0
IsDated table =
    (id : String) (run : SyncRun)
    → table.get id ≡ some run
    → has_ended run.status ≡ false
    → run.completed_at ≡ none

-- What becomes of a run when a process finds it.
abbrev pub found_at : ℕ → SyncRun → SyncRun
found_at now_ms run =
    if has_ended run.status
    then run
    else record run { status = SyncRunStatus.aborted; completed_at = some now_ms; error = none }

load-row :
    (now_ms retention_ms : ℕ) (table : JsMap SyncRun) (id : String) (run : SyncRun)
    → IsDated table
    → table.get id ≡ some run
    → (load now_ms retention_ms table).1.get id ≡ some (found_at now_ms run)
unfolding load recovered
load-row now_ms retention_ms table id run dated there = elim (Bool-cases (has_ended run.status)) [
  | inl over ↦ ground (arith, is_interrupted-has_ended run.status)
  | inr waits ↦ ground (arith, is_interrupted-has_ended run.status, dated id run there waits)
]

insert-Perm : (run : SyncRun) (runs : List SyncRun) → Perm (insert run runs) (run ∷ runs)
insert-Perm run [] = Perm.refl (run ∷ [])
insert-Perm run (r ∷ rs) =
    if_cases (λ l. Perm l (run ∷ r ∷ rs)) (before run r) (λ first. Perm.refl (run ∷ r ∷ rs))
      (λ later. Perm.trans (Perm.cons r (insert-Perm run rs)) (Perm.swap run r rs))

ordered-Perm : (runs : List SyncRun) → Perm (ordered runs) runs
ordered-Perm [] = Perm.refl []
ordered-Perm (run ∷ runs) =
    Perm.trans (insert-Perm run (ordered runs)) (Perm.cons run (ordered-Perm runs))

-- The run has no end, or one at most the retention time ago.
abbrev pub is_wanted : ℕ → ℕ → SyncRun → Bool
is_wanted now_ms retention_ms run = elim run.completed_at [
  | none ↦ true
  | some done ↦ not (ltb (done + retention_ms) now_ms)
]

is_selected-is_wanted :
    (now_ms retention_ms : ℕ) (run : SyncRun)
    → is_selected now_ms retention_ms run ≡ is_wanted now_ms retention_ms run
is_selected-is_wanted now_ms retention_ms run = ground arith

filter-selected :
    (now_ms retention_ms : ℕ) (runs : List SyncRun)
    → filter (is_selected now_ms retention_ms) runs ≡ filter (is_wanted now_ms retention_ms) runs
filter-selected now_ms retention_ms [] = refl
filter-selected now_ms retention_ms (run ∷ runs) =
    ground (
      arith,
      filter-selected now_ms retention_ms runs,
      is_selected-is_wanted now_ms retention_ms run,
    )

recovered-found_at : (now_ms : ℕ) (run : SyncRun) → recovered now_ms run ≡ found_at now_ms run
unfolding recovered
recovered-found_at now_ms run = ground (arith, is_interrupted-has_ended run.status)

map-recovered :
    (now_ms : ℕ) (runs : List SyncRun) → map (recovered now_ms) runs ≡ map (found_at now_ms) runs
map-recovered now_ms [] = refl
map-recovered now_ms (run ∷ runs) =
    ground (arith, recovered-found_at now_ms run, map-recovered now_ms runs)

load-Perm :
    (now_ms retention_ms : ℕ) (table : JsMap SyncRun)
    → Perm
        (load now_ms retention_ms table).0
        (map (found_at now_ms) (filter (is_wanted now_ms retention_ms) (values table)))
unfolding load
load-Perm now_ms retention_ms table =
    let rows = filter (is_selected now_ms retention_ms) (values table) in
    subst (Perm (map (recovered now_ms) (ordered rows)))
      (map-recovered now_ms rows
        ∙ ap (map (found_at now_ms)) (filter-selected now_ms retention_ms (values table)))
      (Perm.map (recovered now_ms) (ordered-Perm rows))

-- If the runs of the table that are queued or syncing have no end yet, then after `load` no run is
-- queued or syncing, neither among the rows that are loaded nor in the table. A run of the table
-- that was queued or syncing is there as aborted, completed now and with no error, and any other
-- run is there as it was. The rows that are loaded are, in some order, the runs of the table with no
-- end or one at most the retention time ago, each of them as it is in the table afterwards.
pub load_settles_all :
    (now_ms retention_ms : ℕ) (table : JsMap SyncRun)
    → IsDated table
    → (all_settled (load now_ms retention_ms table).0 ≡ true)
      × ((id : String) (run : SyncRun)
          → (load now_ms retention_ms table).1.get id ≡ some run
          → has_ended run.status ≡ true)
      × ((id : String) (run : SyncRun)
          → table.get id ≡ some run
          → (load now_ms retention_ms table).1.get id ≡ some (found_at now_ms run))
      × Perm
          (load now_ms retention_ms table).0
          (map (found_at now_ms) (filter (is_wanted now_ms retention_ms) (values table)))
unfolding load recovered
load_settles_all now_ms retention_ms table dated = (
  all_settled-map now_ms (ordered (filter (is_selected now_ms retention_ms) (values table))),
  λ id run found. elim (Option-cases (table.get id)) [
    | inl missing ↦ absurd (ground arith)
    | inr (old, there) ↦
        let kept = load-row now_ms retention_ms table id old dated there in
        elim (Bool-cases (has_ended old.status)) [
          | inl over ↦ ground (arith, kept, found)
          | inr waits ↦ ground (arith, kept, found)
        ]
  ],
  λ id run there. load-row now_ms retention_ms table id run dated there,
  load-Perm now_ms retention_ms table,
)
