-- ===== src/EventLog/Trimming.antt =====
-- The copy that a rotation writes, and its counters.
use agent_metrics.Prelude.{
  ℕ, ◌+◌, ◌≤◌, ◌≡◌, refl, String, Bool, false, not, ◌&&◌, none, some, List, [], ◌∷◌, arith, ltb,
  length, filter, sum_by,
}
use agent_metrics.Prelude.Texts.{◌=s◌}
use agent_metrics.EventLog.Rotation.{Platform, extract_timestamp_ms, trim_event_log_file}

-- The line has a timestamp that is not before the cutoff.
abbrev is_recent : Platform → ℕ → String → Bool
is_recent p cutoff_ms line = elim (extract_timestamp_ms p line) [
  | none ↦ false
  | some at ↦ not (ltb at cutoff_ms)
]

abbrev pub is_kept : Platform → ℕ → String → Bool
is_kept p cutoff_ms line = not (line =s "") && is_recent p cutoff_ms line

abbrev pub is_line : String → Bool
is_line line = not (line =s "")

module _ (p : Platform) (cutoff_ms : ℕ) where
  trim-written :
      (lines : List String)
      → (trim_event_log_file p cutoff_ms lines).written ≡ filter (is_kept p cutoff_ms) lines
  unfolding trim_event_log_file
  trim-written [] = refl
  trim-written (line ∷ lines) = ground (arith, trim-written lines)

  trim-lines :
      (lines : List String)
      → (trim_event_log_file p cutoff_ms lines).kept_lines
          + (trim_event_log_file p cutoff_ms lines).dropped_lines
        ≡ length (filter is_line lines)
  unfolding trim_event_log_file
  trim-lines [] = omega arith
  trim-lines (line ∷ lines) = ground (arith, trim-lines lines)

  trim-kept :
      (lines : List String)
      → (trim_event_log_file p cutoff_ms lines).kept_lines
        ≡ length (trim_event_log_file p cutoff_ms lines).written
  unfolding trim_event_log_file
  trim-kept [] = refl
  trim-kept (line ∷ lines) = ground (arith, trim-kept lines)

  trim-bytes :
      (lines : List String)
      → (trim_event_log_file p cutoff_ms lines).kept_bytes
        ≡ sum_by (λ line. p.byte_length line + 1) (trim_event_log_file p cutoff_ms lines).written
  unfolding trim_event_log_file
  trim-bytes [] = refl
  trim-bytes (line ∷ lines) = ground (arith, trim-bytes lines)

  trim-malformed :
      (lines : List String)
      → (trim_event_log_file p cutoff_ms lines).malformed_lines
        ≤ (trim_event_log_file p cutoff_ms lines).dropped_lines
  unfolding trim_event_log_file
  trim-malformed [] = omega arith
  trim-malformed (line ∷ lines) = ground (arith, trim-malformed lines)

-- The copy has exactly the lines that are not empty and have a timestamp not before the cutoff, in
-- their order. The counters are those of the copy: its lines, its bytes with a newline each, and
-- with the lines that were dropped all the lines that are not empty; no more lines are counted as
-- malformed than as dropped.
pub trim_is_exact :
    (p : Platform) (cutoff_ms : ℕ) (lines : List String)
    → ((trim_event_log_file p cutoff_ms lines).written ≡ filter (is_kept p cutoff_ms) lines)
      × ((trim_event_log_file p cutoff_ms lines).kept_lines
          ≡ length (trim_event_log_file p cutoff_ms lines).written)
      × ((trim_event_log_file p cutoff_ms lines).kept_bytes
          ≡ sum_by (λ line. p.byte_length line + 1) (trim_event_log_file p cutoff_ms lines).written)
      × ((trim_event_log_file p cutoff_ms lines).kept_lines
            + (trim_event_log_file p cutoff_ms lines).dropped_lines
          ≡ length (filter is_line lines))
      × ((trim_event_log_file p cutoff_ms lines).malformed_lines
          ≤ (trim_event_log_file p cutoff_ms lines).dropped_lines)
trim_is_exact p cutoff_ms lines = (
  trim-written p cutoff_ms lines,
  trim-kept p cutoff_ms lines,
  trim-bytes p cutoff_ms lines,
  trim-lines p cutoff_ms lines,
  trim-malformed p cutoff_ms lines,
)
