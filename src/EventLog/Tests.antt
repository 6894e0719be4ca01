-- ===== src/EventLog/Tests.antt =====
-- Rotations of a small log.
use agent_metrics.Prelude.{
  ℕ, ◌+◌, ◌-◌, ◌*◌, ◌≡◌, ◌≤◌, refl, String, true, false, none, some, List, [], ◌∷◌, ◌==◌,
  if◌then◌else◌, length, filter, sum_by,
}
use agent_metrics.Prelude.Texts.{◌=s◌}
use agent_metrics.Prelude.Maps.{empty, put}
use agent_metrics.Sync.Utils.{JsNumber, whole, max_safe_integer}
use agent_metrics.Sync.Summary.{utf16_length}
use agent_metrics.EventLog.Rotation.{
  Platform, Faults, LogFile, Disk, ms_per_day, trim_event_log_file, rotate_event_log_if_needed,
  extract_timestamp_ms, resolve_event_log_rotation_config,
}
use agent_metrics.EventLog.Trimming.{is_kept, is_line, trim_is_exact}
use agent_metrics.EventLog.Keeping.{Keeps, rotation_loses_nothing}
use agent_metrics.EventLog.Limits.{limits_are_positive}

-- A line is its own timestamp, if it is one of these.
abbrev platform : Platform
platform = record {
  match_timestamp = λ line. if line =s "broken" then none else some line;
  json_timestamp = λ line. none;
  parse_date = λ raw. if raw =s "new" then some 9 else some 2;
  byte_length = λ line. 3;
}

abbrev three_lines : List String
three_lines = "old" ∷ "broken" ∷ "" ∷ "new" ∷ []

trim_test : (trim_event_log_file platform 5 three_lines).written ≡ "new" ∷ []
unfolding trim_event_log_file extract_timestamp_ms utf16_length
trim_test = refl

trim_is_exact_example :
    ((trim_event_log_file platform 5 three_lines).written ≡ filter (is_kept platform 5) three_lines)
    × ((trim_event_log_file platform 5 three_lines).kept_lines
        ≡ length (trim_event_log_file platform 5 three_lines).written)
    × ((trim_event_log_file platform 5 three_lines).kept_bytes
        ≡ sum_by
            (λ line. platform.byte_length line + 1)
            (trim_event_log_file platform 5 three_lines).written)
    × ((trim_event_log_file platform 5 three_lines).kept_lines
          + (trim_event_log_file platform 5 three_lines).dropped_lines
        ≡ length (filter is_line three_lines))
    × ((trim_event_log_file platform 5 three_lines).malformed_lines
        ≤ (trim_event_log_file platform 5 three_lines).dropped_lines)
trim_is_exact_example = trim_is_exact platform 5 three_lines

abbrev log_file : LogFile
log_file = record { lines = three_lines; size = 100; is_file = true }

abbrev archived : LogFile
archived = record { lines = []; size = 0; is_file = true }

abbrev disk : Disk
disk = record { live = some log_file; temp = none; archive = put empty "events" archived }

abbrev replacing_fails : Faults
replacing_fails = record {
  trim_fails = false;
  archive_lookup_fails = false;
  archive_rename_fails = false;
  replace_fails = true;
  restore_fails = false;
}

abbrev name_at : ℕ → String
name_at n = if n == 0 then "events" else "events-1"

rotation_loses_nothing_example :
    Keeps log_file disk.archive
      (trim_event_log_file platform (5 - 0 * ms_per_day) log_file.lines)
      (rotate_event_log_if_needed platform name_at replacing_fails 50 0 5 disk).1
rotation_loses_nothing_example =
    rotation_loses_nothing platform name_at replacing_fails 50 0 5 disk log_file refl refl

abbrev numbers : String → JsNumber
numbers text = whole (if text =s "0" then 0 else 7)

limits_are_positive_example :
    ((1 ≤ (resolve_event_log_rotation_config numbers (some "0") (some "7")).max_bytes)
      × ((resolve_event_log_rotation_config numbers (some "0") (some "7")).max_bytes
          ≤ max_safe_integer))
    × ((1 ≤ (resolve_event_log_rotation_config numbers (some "0") (some "7")).retention_days)
        × ((resolve_event_log_rotation_config numbers (some "0") (some "7")).retention_days
            ≤ max_safe_integer))
limits_are_positive_example = limits_are_positive numbers (some "0") (some "7")
