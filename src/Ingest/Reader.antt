-- ===== src/Ingest/Reader.antt =====
-- `readEventLogIncremental` of apps/core/src/raw-ingest.ts. The file is what it is when its size is
-- read. The loops run on fuel.
use agent_metrics.Prelude.{
  ℕ, zero, suc, ◌+◌, ◌-◌, ◌*◌, String, Bool, true, false, not, ◌||◌, ◌&&◌, ltb, ◌==◌, Option, none,
  some, List, [], ◌∷◌, ◌++◌, min, length, take, drop, if◌then◌else◌, or_else,
}
use agent_metrics.Sync.Utils.{JsNumber, whole, is_count, count_of}
use agent_metrics.Ingest.Files.{
  Platform, EventFile, EventLogCursor, is_safe_size, decode_line, prefix_hash,
  compute_file_identity, cursor_matches_file,
}

abbrev pub default_read_chunk_bytes : ℕ
default_read_chunk_bytes = 64 * 1024

abbrev pub default_max_read_bytes : ℕ
default_max_read_bytes = 8 * 1024 * 1024

pub record EventLogLineRecord : Type 0 where
  pub line : List ℕ
  pub offset_bytes : ℕ
  pub end_offset_bytes : ℕ

pub record MalformedEventLogLine : Type 0 where
  pub line : List ℕ
  pub offset_bytes : ℕ
  pub end_offset_bytes : ℕ
  pub message : String

-- The variables of the function that its loops change.
pub record Reader : Type 0 where
  pub lines : List (List ℕ)
  pub records : List EventLogLineRecord
  pub valid_lines : List (List ℕ)
  pub malformed_lines : List MalformedEventLogLine
  pub pending : List ℕ
  pub pending_start_offset : ℕ
  pub committed_offset : ℕ

abbrev pub reader_at : ℕ → Reader
reader_at start_offset = record {
  lines = [];
  records = [];
  valid_lines = [];
  malformed_lines = [];
  pending = [];
  pending_start_offset = start_offset;
  committed_offset = start_offset;
}

pub record EventLogReadResult : Type 0 where
  pub file_identity : String
  pub start_offset : ℕ
  pub reset : Bool
  pub lines : List (List ℕ)
  pub records : List EventLogLineRecord
  pub valid_lines : List (List ℕ)
  pub malformed_lines : List MalformedEventLogLine
  pub trailing_line : List ℕ
  pub next_cursor : EventLogCursor
  pub next_offset : ℕ

-- `pending.indexOf(byte)`
unfoldable pub index_of : ℕ → List ℕ → Option ℕ
index_of byte [] = none
index_of byte (b ∷ bs) =
    if b == byte then some 0 else elim (index_of byte bs) [ none ↦ none | some i ↦ some (suc i) ]

abbrev pub newline : ℕ
newline = 10

abbrev pub add_chunk : List ℕ → Reader → Reader
add_chunk chunk s = record s { pending = s.pending ++ chunk }

module _ (p : Platform) where
  -- What the body of the inner loop does with a line, the bytes after its newline, and the index
  -- of that.
  unfoldable pub commit_raw : ℕ → List ℕ → List ℕ → Reader → Reader
  commit_raw newline_index raw_line rest s =
      let line = decode_line p raw_line true in
      let end_offset = s.pending_start_offset + newline_index + 1 in
      record s {
        lines = s.lines ++ line ∷ [];
        records =
            s.records
            ++ record {
              line = line;
              offset_bytes = s.pending_start_offset;
              end_offset_bytes = end_offset;
            }
              ∷ [];
        valid_lines = elim (p.json_error line) [
          | none ↦ s.valid_lines ++ line ∷ []
          | some message ↦ s.valid_lines
        ];
        malformed_lines = elim (p.json_error line) [
          | none ↦ s.malformed_lines
          | some message ↦
              s.malformed_lines
              ++ record {
                line = line;
                offset_bytes = s.pending_start_offset;
                end_offset_bytes = end_offset;
                message = message;
              }
                ∷ []
        ];
        pending = rest;
        pending_start_offset = end_offset;
        committed_offset = end_offset;
      }

  unfoldable pub commit_line : ℕ → Reader → Reader
  commit_line newline_index s =
      commit_raw newline_index (take newline_index s.pending) (drop (suc newline_index) s.pending) s

  -- The inner loop.
  unfoldable pub commit_lines : ℕ → Reader → Reader
  commit_lines zero s = s
  commit_lines (suc fuel) s = elim (index_of newline s.pending) [
    | none ↦ s
    | some newline_index ↦ commit_lines fuel (commit_line newline_index s)
  ]

  module _ (max_bytes chunk_bytes : ℕ) (file : EventFile) where
    -- What the read at the offset returns, after so many bytes have been read.
    unfoldable pub next_chunk : ℕ → ℕ → List ℕ
    next_chunk read_offset bytes_read =
        let read_length =
          min (min chunk_bytes (max_bytes - bytes_read)) (length file.bytes - read_offset) in
        take (min (p.read_count read_offset read_length) read_length) (drop read_offset file.bytes)

    -- The outer loop.
    unfoldable pub read_chunks : ℕ → ℕ → ℕ → Reader → Reader
    read_chunks zero read_offset bytes_read s = s
    read_chunks (suc fuel) read_offset bytes_read s =
        elim (ltb read_offset (length file.bytes) && ltb bytes_read max_bytes) [
          | false ↦ s
          | true ↦
              let chunk = next_chunk read_offset bytes_read in
              elim (length chunk) [
                | zero ↦ s
                | suc _ ↦
                    let grown = add_chunk chunk s in
                    read_chunks fuel (read_offset + length chunk) (bytes_read + length chunk)
                      (commit_lines (length grown.pending + 1) grown)
              ]
        ]

  -- `cursor !== null && !(await cursorMatchesFile(...))`
  unfoldable pub is_reset : Option EventLogCursor → EventFile → Bool
  is_reset none file = false
  is_reset (some cursor) file =
      not (cursor_matches_file p cursor (compute_file_identity p file) file)

  unfoldable pub start_of : Option EventLogCursor → EventFile → ℕ
  start_of none file = 0
  start_of (some cursor) file = if is_reset (some cursor) file then 0 else cursor.committed_offset

  abbrev pub to_result : Option EventLogCursor → EventFile → Reader → EventLogReadResult
  to_result cursor file s = record {
    file_identity = compute_file_identity p file;
    start_offset = start_of cursor file;
    reset = is_reset cursor file;
    lines = s.lines;
    records = s.records;
    valid_lines = s.valid_lines;
    malformed_lines = s.malformed_lines;
    trailing_line = decode_line p s.pending false;
    next_cursor = record {
      file_identity = compute_file_identity p file;
      committed_offset = s.committed_offset;
      committed_prefix_hash = prefix_hash p file s.committed_offset;
    };
    next_offset = s.committed_offset;
  }

  -- The limits are those of the options, or the defaults. `none` is a `RangeError`.
  unfoldable pub read_event_log_incremental :
      EventFile
      → Option EventLogCursor
      → Option JsNumber
      → Option JsNumber
      → Option EventLogReadResult
  read_event_log_incremental file cursor max_bytes chunk_bytes =
      let most = or_else max_bytes (whole default_max_read_bytes) in
      let chunk = or_else chunk_bytes (whole default_read_chunk_bytes) in
      if not (is_count most) || not (is_count chunk && ltb 0 (count_of chunk))
      then none
      else if not (is_safe_size file)
      then none
      else some (
          to_result cursor file (
            read_chunks (count_of most) (count_of chunk) file (length file.bytes + 1)
              (start_of cursor file) 0 (reader_at (start_of cursor file))))
