-- ===== src/Shared/Tests.antt =====
-- Texts and ledgers at concrete values.
use agent_metrics.Prelude.{
  ◌+◌, ◌≡◌, ◌≤◌, refl, String, Option, none, some, List, [], ◌∷◌, length, if◌then◌else◌,
}
use agent_metrics.Prelude.Texts.{contains, delete, add}
use agent_metrics.Shared.Diff.{
  split_lines, diff_text_stats, longest_common_subsequence_length, all_rows, next_row, fill_row,
}
use agent_metrics.Shared.Subsequence.{IsSubsequence}
use agent_metrics.Shared.Minimal.{
  IsLongest, longest_common_subsequence_length-IsLongest, diff_is_minimal,
}
use agent_metrics.Shared.Ledger.{
  text, not_json, object, unreadable, lines, done, Reconciled, LogLine, load_event_ledger,
  load_event_ledger_with_fallback, read_ledger_keys, reconcile, is_claimed, starts_with,
  collect_for_sessions, collect, rebuild_event_ledger_from_log,
}
use agent_metrics.Shared.Reconciling.{is_logged, reconcile_matches_log, reconcile_idempotent}
use agent_metrics.Shared.Fallback.{fallback_saved}

abbrev before : List String
before = "a" ∷ "b" ∷ "c" ∷ "d" ∷ []

abbrev after : List String
after = "b" ∷ "x" ∷ "d" ∷ []

rows_test : longest_common_subsequence_length before after ≡ 2
unfolding longest_common_subsequence_length all_rows next_row fill_row
rows_test = refl

longest_common_subsequence_length-IsLongest_example :
    IsLongest before after (longest_common_subsequence_length before after)
longest_common_subsequence_length-IsLongest_example =
    longest_common_subsequence_length-IsLongest before after

diff_is_minimal_example :
    (kept : List String) × IsSubsequence kept (split_lines "a\nb")
    × IsSubsequence kept (split_lines "b\nc\n")
    × ((diff_text_stats "a\nb" "b\nc\n").insertions + length kept ≡ length (split_lines "b\nc\n"))
    × ((diff_text_stats "a\nb" "b\nc\n").deletions + length kept ≡ length (split_lines "a\nb"))
    × ((zs : List String)
        → IsSubsequence zs (split_lines "a\nb")
        → IsSubsequence zs (split_lines "b\nc\n")
        → length zs ≤ length kept)
diff_is_minimal_example = diff_is_minimal "a\nb" "b\nc\n"

-- The session of a key of this adapter.
abbrev session_of : String → Option String
session_of key = if contains ("p:1" ∷ "p:2" ∷ []) key then some "s" else none

abbrev log : List LogLine
log = object (text "p:1") (text "v2:9") ∷ not_json ∷ object (text "") (text "q:7") ∷ []

abbrev seen : List String
seen = "p:2" ∷ "q:7" ∷ []

-- The ghost goes, the key of the log comes, and the other key stays.
abbrev reconciled : Reconciled
reconciled = record { seen = "q:7" ∷ "p:1" ∷ []; removed = 1; added = 1 }

reconciled-log : reconcile session_of "p:" ("s" ∷ []) (lines log) seen ≡ done reconciled
unfolding reconcile collect_for_sessions starts_with collect read_ledger_keys contains delete add
reconciled-log = refl

reconcile_matches_log_example :
    (r : Reconciled) × (reconcile session_of "p:" ("s" ∷ []) (lines log) seen ≡ done r)
    × ((key : String)
        → contains r.seen key ≡ (
            if is_claimed session_of ("s" ∷ []) key
            then is_logged session_of "p:" ("s" ∷ []) log key
            else contains seen key))
reconcile_matches_log_example = reconcile_matches_log session_of "p:" ("s" ∷ []) log seen refl

reconcile_idempotent_example :
    reconcile session_of "p:" ("s" ∷ []) (lines log) reconciled.seen
    ≡ done (record { seen = reconciled.seen; removed = 0; added = 0 })
reconcile_idempotent_example =
    reconcile_idempotent session_of "p:" ("s" ∷ []) log seen reconciled refl reconciled-log

fallback_saved_example :
    contains
      (load_event_ledger (load_event_ledger_with_fallback unreadable (lines log) "p:").1)
      "p:1"
    ≡ contains ("p:1" ∷ []) "p:1"
unfolding load_event_ledger_with_fallback load_event_ledger rebuild_event_ledger_from_log
    starts_with collect read_ledger_keys contains add
fallback_saved_example = fallback_saved unreadable (lines log) "p:" ("p:1" ∷ []) refl "p:1"
