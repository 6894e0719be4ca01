-- ===== src/Ingest/Files.antt =====
-- apps/core/src/raw-primitives.ts: the identity of a file, and when a cursor belongs to it. A file
-- is its bytes; hashes, the text of an identity and the decoding of bytes are the platform's.
use agent_metrics.Prelude.{
  ℕ, ◌-◌, ◌*◌, String, Bool, not, ◌||◌, ◌&&◌, ltb, ◌==◌, Option, none, some, List, [], ◌∷◌, leb,
  min, length, take, drop, if◌then◌else◌,
}
use agent_metrics.Prelude.Texts.{◌=s◌}
use agent_metrics.Sync.Utils.{JsNumber, whole, other, is_count}

-- `sha_bytes`, `sha_text` and `sha_line` are `sha256Hex` on bytes, on a text and on a line,
-- `identity_json` is
-- `canonicalJson` of an identity. Of `n` bytes that are asked for at an offset, a read returns
-- `read_count offset n`. A text is its code units; `json_error` is the message with which
-- `JSON.parse` throws.
pub record Platform : Type 0 where
  pub sha_bytes : List ℕ → String
  pub sha_text : String → String
  pub sha_line : List ℕ → String
  pub identity_json : String → Option ℕ → String → String
  pub read_count : ℕ → ℕ → ℕ
  pub utf8 : List ℕ → List ℕ
  pub json_error : List ℕ → Option String

-- A file: its canonical path, its time of creation where that is finite, and its bytes.
pub record EventFile : Type 0 where
  pub canonical_path : String
  pub creation_time : Option ℕ
  pub bytes : List ℕ

pub record EventLogCursor : Type 0 where
  pub file_identity : String
  pub committed_offset : ℕ
  pub committed_prefix_hash : String

abbrev pub prefix_hash_bytes : ℕ
prefix_hash_bytes = 4 * 1024

-- The bytes of a range, fewer where the file ends before it does: `readRange` reads until it has
-- them.
unfoldable pub read_range : EventFile → ℕ → ℕ → List ℕ
read_range file start_offset count = take count (drop start_offset file.bytes)

-- `statNumber` on the size: it throws where this is false.
abbrev pub is_safe_size : EventFile → Bool
is_safe_size file = is_count (whole (length file.bytes))

-- The text without a carriage return at its end.
unfoldable pub strip_cr : List ℕ → List ℕ
strip_cr [] = []
strip_cr (c ∷ []) = if c == 13 then [] else c ∷ []
strip_cr (c ∷ d ∷ cs) = c ∷ strip_cr (d ∷ cs)

module _ (p : Platform) where
  unfoldable pub decode_line : List ℕ → Bool → List ℕ
  decode_line raw strip = if strip then strip_cr (p.utf8 raw) else p.utf8 raw

  unfoldable pub hash_range : EventFile → ℕ → ℕ → String
  hash_range file start_offset end_offset =
      if leb end_offset start_offset
      then p.sha_bytes []
      else p.sha_bytes (read_range file start_offset (end_offset - start_offset))

  -- The hash over the last 4 KiB before an offset.
  abbrev pub prefix_hash : EventFile → ℕ → String
  prefix_hash file offset = hash_range file (offset - min offset prefix_hash_bytes) offset

  -- `computeFileIdentityFromHandle` for a file of a safe size.
  unfoldable pub compute_file_identity : EventFile → String
  compute_file_identity file = p.sha_text (
      p.identity_json file.canonical_path file.creation_time
        (p.sha_bytes (read_range file 0 (min prefix_hash_bytes (length file.bytes)))))

  unfoldable pub cursor_matches_file : EventLogCursor → String → EventFile → Bool
  cursor_matches_file cursor identity file =
      (cursor.file_identity =s identity)
      && (is_count (whole cursor.committed_offset)
          && (leb cursor.committed_offset (length file.bytes)
              && (prefix_hash file cursor.committed_offset =s cursor.committed_prefix_hash)))

  -- `none` is a throw: an offset that is no safe integer or lies past the end, or a file whose size
  -- is no safe integer.
  unfoldable pub create_event_log_cursor : EventFile → JsNumber → Option EventLogCursor
  create_event_log_cursor file other = none
  create_event_log_cursor file (whole committed_offset) =
      if not (is_count (whole committed_offset)) || ltb (length file.bytes) committed_offset
      then none
      else if not (is_safe_size file)
      then none
      else some (record {
        file_identity = compute_file_identity file;
        committed_offset = committed_offset;
        committed_prefix_hash = prefix_hash file committed_offset;
      })
