-- ===== src/Sync/Tests.antt =====
-- The checks and the run store at concrete values.
use agent_metrics.Prelude.{arith, ◌≡◌, ◌≤◌, ◌↔◌, String, true, false, none, some, map, filter}
use mathlib.Core.List.{Perm}
use agent_metrics.Prelude.Maps.{JsMap, empty, put, values}
use agent_metrics.Sync.Types.{SyncRun, SyncRunStatus, SyncResult}
use agent_metrics.Sync.Summary.{utf16_length, is_empty, error_summary_limit}
use agent_metrics.Sync.Utils.{text, to_sync_error, counts, whole, ok, normalize_result}
use agent_metrics.Sync.Store.{load}
use agent_metrics.Sync.Checks.{HasCounts, accepted_results, summary_is_short}
use agent_metrics.Sync.Restoring.{
  IsDated, all_settled, has_ended, found_at, is_wanted, load_settles_all,
}

summary_is_short_example :
    (is_empty (to_sync_error (text "  lost\n connection ")).summary ≡ false)
    × (utf16_length (to_sync_error (text "  lost\n connection ")).summary ≤ error_summary_limit)
summary_is_short_example = summary_is_short (text "  lost\n connection ")

abbrev result : SyncResult
result = record {
  discovered_records = 4;
  committed_unique_events = 3;
  projected_unique_events = 3;
  projection_watermark = 12;
}

accepted_results_example :
    (normalize_result (counts (whole 4) (whole 3) (whole 3) (whole 12)) ≡ ok result)
    ↔ HasCounts (counts (whole 4) (whole 3) (whole 3) (whole 12)) result
accepted_results_example = accepted_results (counts (whole 4) (whole 3) (whole 3) (whole 12)) result

abbrev interrupted : SyncRun
interrupted = record {
  run_id = "run-1";
  adapter_instance_id = "a";
  status = SyncRunStatus.syncing;
  accepted_at = 1;
  started_at = some 2;
  completed_at = none;
  discovered_records = 0;
  committed_unique_events = 0;
  projected_unique_events = 0;
  projection_watermark = none;
  error = none;
}

abbrev table : JsMap SyncRun
table = put empty "run-1" interrupted

table-IsDated : IsDated table
table-IsDated id run found h = ground arith

load_settles_all_example :
    (all_settled (load 100 50 table).0 ≡ true)
    × ((id : String) (run : SyncRun)
        → (load 100 50 table).1.get id ≡ some run
        → has_ended run.status ≡ true)
    × ((id : String) (run : SyncRun)
        → table.get id ≡ some run
        → (load 100 50 table).1.get id ≡ some (found_at 100 run))
    × Perm (load 100 50 table).0 (map (found_at 100) (filter (is_wanted 100 50) (values table)))
load_settles_all_example = load_settles_all 100 50 table table-IsDated
