-- ===== src/Sync/Store.antt =====
-- apps/core/src/sync-run-store.ts: the table `sync_runs`, one row to a run id.
use Prim.Native.String.{compare as compare_text}
use Prim.Native.Nat.{compare}
use agent_metrics.Prelude.{
  ℕ, ◌+◌, Bool, true, false, String, List, [], ◌∷◌, none, some, Ordering, leb, if◌then◌else◌,
  filter, map,
}
use agent_metrics.Prelude.Maps.{JsMap, put, remove, for_each, values}
use agent_metrics.Sync.Types.{SyncRun, SyncRunStatus}

-- `INSERT ... ON CONFLICT(run_id) DO UPDATE`
abbrev pub save : SyncRun → JsMap SyncRun → JsMap SyncRun
save run table = put table run.run_id run

-- `DELETE FROM sync_runs WHERE run_id = ?`
abbrev pub remove_run : String → JsMap SyncRun → JsMap SyncRun
remove_run run_id table = remove table run_id

-- `completed_at IS NULL OR completed_at >= ?`, the cutoff being `now_ms` less the retention time.
abbrev pub is_selected : ℕ → ℕ → SyncRun → Bool
is_selected now_ms retention_ms run = elim run.completed_at [
  | none ↦ true
  | some at ↦ leb now_ms (at + retention_ms)
]

-- `row.status === "queued" || row.status === "syncing"`
abbrev pub is_interrupted : SyncRunStatus → Bool
is_interrupted SyncRunStatus.queued = true
is_interrupted SyncRunStatus.syncing = true
is_interrupted _ = false

-- What `load` makes of a selected row, in the table and in the answer: a run that was interrupted
-- by the end of the process is aborted.
unfoldable pub recovered : ℕ → SyncRun → SyncRun
recovered now_ms run =
    if is_interrupted run.status
    then record run { status = SyncRunStatus.aborted; completed_at = some now_ms; error = none }
    else run

-- `ORDER BY accepted_at ASC, run_id ASC`
abbrev pub before : SyncRun → SyncRun → Bool
before a b = elim (compare a.accepted_at b.accepted_at) [
  | Ordering.lt ↦ true
  | Ordering.gt ↦ false
  | Ordering.eq ↦ elim (compare_text a.run_id b.run_id) [ Ordering.gt ↦ false | _ ↦ true ]
]

abbrev pub insert : SyncRun → List SyncRun → List SyncRun
insert run [] = run ∷ []
insert run (r ∷ rs) = let rest = insert run rs in if before run r then run ∷ r ∷ rs else r ∷ rest

abbrev pub ordered : List SyncRun → List SyncRun
ordered [] = []
ordered (run ∷ runs) = insert run (ordered runs)

-- `load`: the rows, and the table after the update.
unfoldable pub load : ℕ → ℕ → JsMap SyncRun → List SyncRun × JsMap SyncRun
unfolding recovered
load now_ms retention_ms table = (
  map (recovered now_ms) (ordered (filter (is_selected now_ms retention_ms) (values table))),
  for_each table (λ run. if is_selected now_ms retention_ms run then recovered now_ms run else run),
)
