-- ===== src/EventLog/Rotation.antt =====
-- apps/core/src/event-log-rotation.ts. The reading of timestamps that JavaScript and its JSON do,
-- the names of the archives and the failures of the file system are parameters.
use agent_metrics.Prelude.{
  ℕ, zero, suc, ◌+◌, ◌-◌, ◌*◌, String, Bool, true, false, not, ◌&&◌, ◌||◌, Option, none, some, List,
  [], ◌∷◌, ltb, leb, if◌then◌else◌,
}
use agent_metrics.Prelude.Texts.{◌=s◌}
use agent_metrics.Prelude.Maps.{JsMap, has, put, remove}
use agent_metrics.Sync.Summary.{trim, utf16_length, slice_units}
use agent_metrics.Sync.Utils.{JsNumber, whole, other, is_count}

abbrev pub default_event_log_max_bytes : ℕ
default_event_log_max_bytes = 512 * 1024 * 1024

abbrev pub default_event_log_retention_days : ℕ
default_event_log_retention_days = 14

abbrev pub ms_per_day : ℕ
ms_per_day = 24 * 60 * 60 * 1000

pub record EventLogRotationConfig : Type 0 where
  pub max_bytes : ℕ
  pub retention_days : ℕ

-- `number_of` is `Number` on a text.
module _ (number_of : String → JsNumber) where
  abbrev pub positive_or : JsNumber → ℕ → ℕ
  positive_or (whole n) fallback = if is_count (whole n) && ltb 0 n then n else fallback
  positive_or other fallback = fallback

  unfoldable pub read_positive_integer : Option String → ℕ → ℕ
  read_positive_integer none fallback = fallback
  read_positive_integer (some raw) fallback =
      if trim raw =s "" then fallback else positive_or (number_of (trim raw)) fallback

  -- The two variables of the environment, `none` where they are not set.
  unfoldable pub resolve_event_log_rotation_config :
      Option String → Option String → EventLogRotationConfig
  resolve_event_log_rotation_config max_bytes retention_days = record {
    max_bytes = read_positive_integer max_bytes default_event_log_max_bytes;
    retention_days = read_positive_integer retention_days default_event_log_retention_days;
  }

-- What the platform reads from a line: the first match of `TIMESTAMP_PATTERN` in its head, the
-- text under `timestamp` of a line that is JSON, and the instant that a text denotes.
pub record Platform : Type 0 where
  pub match_timestamp : String → Option String
  pub json_timestamp : String → Option String
  pub parse_date : String → Option ℕ
  pub byte_length : String → ℕ

abbrev pub timestamp_scan_chars : ℕ
timestamp_scan_chars = 1024

-- The part of a line in which the pattern is looked for. A surrogate pair that the cut would split
-- is left out.
unfoldable pub head_of : String → String
unfolding slice_units
head_of line =
    if ltb timestamp_scan_chars (utf16_length line)
    then slice_units timestamp_scan_chars line
    else line

module _ (p : Platform) where
  unfoldable pub extract_timestamp_ms : String → Option ℕ
  unfolding head_of
  extract_timestamp_ms line = elim (p.match_timestamp (head_of line)) [
    | some raw ↦ p.parse_date raw
    | none ↦ elim (p.json_timestamp line) [ none ↦ none | some raw ↦ p.parse_date raw ]
  ]

-- The lines that were written and the counters of `trimEventLogFile`.
pub record Trimmed : Type 0 where
  pub written : List String
  pub kept_lines : ℕ
  pub dropped_lines : ℕ
  pub malformed_lines : ℕ
  pub kept_bytes : ℕ

abbrev pub nothing_trimmed : Trimmed
nothing_trimmed = record {
  written = [];
  kept_lines = 0;
  dropped_lines = 0;
  malformed_lines = 0;
  kept_bytes = 0;
}

module _ (p : Platform) (cutoff_ms : ℕ) where
  -- One round of the loop: its effect comes before that of the lines that follow. A line that is
  -- written has a newline after it, one byte more.
  abbrev trim_line : String → Trimmed → Trimmed
  trim_line line rest = if line =s "" then rest else elim (extract_timestamp_ms p line) [
    | none ↦ record rest {
      malformed_lines = rest.malformed_lines + 1;
      dropped_lines = rest.dropped_lines + 1;
    }
    | some at ↦
        if ltb at cutoff_ms
        then record rest { dropped_lines = rest.dropped_lines + 1 }
        else record rest {
          written = line ∷ rest.written;
          kept_lines = rest.kept_lines + 1;
          kept_bytes = rest.kept_bytes + (p.byte_length line + 1);
        }
  ]

  unfoldable pub trim_event_log_file : List String → Trimmed
  trim_event_log_file [] = nothing_trimmed
  trim_event_log_file (line ∷ lines) = trim_line line (trim_event_log_file lines)

pub record LogFile : Type 0 where
  pub lines : List String
  pub size : ℕ
  pub is_file : Bool

-- The live log, the temporary copy and the archive directory.
pub record Disk : Type 0 where
  pub live : Option LogFile
  pub temp : Option LogFile
  pub archive : JsMap LogFile

-- Which of the file operations fail.
pub record Faults : Type 0 where
  pub trim_fails : Bool
  pub archive_lookup_fails : Bool
  pub archive_rename_fails : Bool
  pub replace_fails : Bool
  pub restore_fails : Bool

pub data EventLogRotationSkipReason : Type 0 where
  missing below_threshold : EventLogRotationSkipReason

pub record EventLogRotationResult : Type 0 where
  pub rotated : Bool
  pub skip_reason : Option EventLogRotationSkipReason
  pub original_bytes : ℕ
  pub kept_bytes : ℕ
  pub kept_lines : ℕ
  pub dropped_lines : ℕ
  pub dropped_malformed_lines : ℕ
  pub archive_path : Option String

abbrev pub skipped : EventLogRotationSkipReason → ℕ → EventLogRotationResult
skipped reason bytes = record {
  rotated = false;
  skip_reason = some reason;
  original_bytes = bytes;
  kept_bytes = 0;
  kept_lines = 0;
  dropped_lines = 0;
  dropped_malformed_lines = 0;
  archive_path = none;
}

-- `nextArchivePath`: the first name that is free, of so many attempts from `attempt` on.
unfoldable pub next_archive_path : (ℕ → String) → JsMap LogFile → ℕ → ℕ → Option String
next_archive_path name archive zero attempt = none
next_archive_path name archive (suc left) attempt =
    let later = next_archive_path name archive left (suc attempt) in
    if has archive (name attempt) then later else some (name attempt)

-- `none` is a throw.
module _ (p : Platform) (name : ℕ → String) (faults : Faults) where
  -- The renames, once the copy is written and the archive has a name.
  unfoldable pub replace_log :
      LogFile → Trimmed → String → Disk → Option EventLogRotationResult × Disk
  replace_log file trimmed path disk =
      if faults.archive_rename_fails
      then (none, disk)
      else let moved = record disk { live = none; archive = put disk.archive path file } in
        if faults.replace_fails
        then (
          none,
          if faults.restore_fails then record moved { temp = none } else record moved {
            live = moved.archive.get path;
            archive = remove moved.archive path;
            temp = none;
          },
        )
        else (
          some (record {
            rotated = true;
            skip_reason = none;
            original_bytes = file.size;
            kept_bytes = trimmed.kept_bytes;
            kept_lines = trimmed.kept_lines;
            dropped_lines = trimmed.dropped_lines;
            dropped_malformed_lines = trimmed.malformed_lines;
            archive_path = some path;
          }),
          record moved { live = disk.temp; temp = none },
        )

  unfoldable pub rotate_event_log_if_needed :
      ℕ → ℕ → ℕ → Disk → Option EventLogRotationResult × Disk
  unfolding replace_log next_archive_path
  rotate_event_log_if_needed max_bytes retention_days now_ms disk = elim disk.live [
    | none ↦ (some (skipped missing 0), disk)
    | some file ↦
        if not file.is_file || leb file.size max_bytes
        then (some (skipped below_threshold file.size), disk)
        else if faults.trim_fails
        then (none, record disk { temp = none })
        else let trimmed =
            trim_event_log_file p (now_ms - retention_days * ms_per_day) file.lines in
          let copy : LogFile = record {
            lines = trimmed.written;
            size = trimmed.kept_bytes;
            is_file = true;
          } in
          let ready = record disk { temp = some copy } in
          if faults.archive_lookup_fails
          then (none, ready)
          else elim (next_archive_path name disk.archive 100 0) [
            | none ↦ (none, ready)
            | some path ↦ replace_log file trimmed path ready
          ]
  ]
