-- ===== src/Ingest/Window.antt =====
-- What a read of the log returns.
use agent_metrics.Prelude.{
  ℕ, ◌+◌, ◌-◌, ◌≡◌, ◌≤◌, ◌<◌, refl, false, lt→ltb, le→leb, Option, none, some, List, ◌++◌, length,
  take, drop, arith, ap, sym, ◌∙◌,
}
use agent_metrics.Sync.Utils.{whole, max_safe_integer}
use agent_metrics.Ingest.Files.{
  Platform, EventFile, EventLogCursor, decode_line, hash_range, compute_file_identity,
  cursor_matches_file,
}
use agent_metrics.Ingest.Reader.{
  reader_at, EventLogReadResult, to_result, read_event_log_incremental, start_of, is_reset,
  commit_line, commit_raw,
}
use agent_metrics.Ingest.Feeding.{IsPlain, IsPlain-nil, feed, feeds}
use agent_metrics.Ingest.Chunks.{ReadsSome, read_chunks-feeds}
use agent_metrics.Ingest.Tiling.{joined, AllPlain, numbered, feeds-Tiles}

-- The limits are safe integers, as is the size, and a chunk is not empty.
pub record IsAllowed (file : EventFile) (max_bytes chunk_bytes : ℕ) : Type 0 where
  pub max_is_safe : max_bytes ≤ max_safe_integer
  pub chunk_is_safe : chunk_bytes ≤ max_safe_integer
  pub chunk_is_positive : 0 < chunk_bytes
  pub size_is_safe : length file.bytes ≤ max_safe_integer

abbrev pub read_with :
    Platform → EventFile → Option EventLogCursor → ℕ → ℕ → Option EventLogReadResult
read_with p file cursor max_bytes chunk_bytes =
    read_event_log_incremental p file cursor (some (whole max_bytes)) (some (whole chunk_bytes))

-- The bytes from where the cursor stands, up to the limit.
abbrev pub window : Platform → EventFile → Option EventLogCursor → ℕ → List ℕ
window p file cursor max_bytes = take max_bytes (drop (start_of p cursor file) file.bytes)

module _ (p : Platform) (file : EventFile) (cursor : Option EventLogCursor)
    (max_bytes chunk_bytes : ℕ) where
  pub read-feeds :
      ReadsSome p
      → IsAllowed file max_bytes chunk_bytes
      → read_with p file cursor max_bytes chunk_bytes
        ≡ some (
            to_result p cursor file
              (feeds p (window p file cursor max_bytes) (reader_at (start_of p cursor file))))
  unfolding read_event_log_incremental
  read-feeds reads ok =
      let start = start_of p cursor file in
      let whole_window : max_bytes - 0 ≡ max_bytes = omega arith in
      rw
        (
          le→leb max_bytes max_safe_integer ok.max_is_safe,
          le→leb chunk_bytes max_safe_integer ok.chunk_is_safe,
          lt→ltb 0 chunk_bytes ok.chunk_is_positive,
          le→leb (length file.bytes) max_safe_integer ok.size_is_safe,
        )
        (ap (λ s. some (to_result p cursor file s))
          (read_chunks-feeds p max_bytes chunk_bytes file (length file.bytes + 1) start 0
              (reader_at start) reads ok.chunk_is_positive (omega arith) IsPlain-nil
            ∙ ap (λ n. feeds p (take n (drop start file.bytes)) (reader_at start)) whole_window))

-- A read with limits that are allowed returns, if reads of bytes that are there return some. The
-- bytes from its start up to the limit are then lines, each with its newline, and a rest without a
-- newline; the records are these lines, decoded, each with the offsets where it begins and where
-- the next one does; the next cursor stands after the last of them, and the trailing line is the
-- rest.
pub records_tile_window :
    (p : Platform) (file : EventFile) (cursor : Option EventLogCursor) (max_bytes chunk_bytes : ℕ)
    → ReadsSome p
    → IsAllowed file max_bytes chunk_bytes
    → (r : EventLogReadResult) × (read_with p file cursor max_bytes chunk_bytes ≡ some r)
      × ((raws : List (List ℕ)) × ((rest : List ℕ) × (take max_bytes
                (drop r.start_offset file.bytes)
              ≡ joined raws ++ rest)
            × AllPlain raws
            × IsPlain rest
            × (r.records ≡ numbered p r.start_offset raws)
            × (r.next_offset ≡ r.start_offset + length (joined raws))
            × (r.next_cursor.committed_offset ≡ r.next_offset)
            × (r.trailing_line ≡ decode_line p rest false)))
records_tile_window p file cursor max_bytes chunk_bytes reads ok =
    let start = start_of p cursor file in
    let bs = window p file cursor max_bytes in
    let s = feeds p bs (reader_at start) in
    let tiles = feeds-Tiles p bs (reader_at start) IsPlain-nil refl in
    (
      to_result p cursor file s,
      read-feeds p file cursor max_bytes chunk_bytes reads ok,
      (
        tiles.raws,
        (
          s.pending,
          tiles.covered,
          tiles.closed,
          tiles.plain,
          tiles.recorded,
          tiles.committed ∙ tiles.started,
          refl,
          refl,
        ),
      ),
    )

abbrev pub with_reads : Platform → (ℕ → ℕ → ℕ) → Platform
with_reads p read_count = record p { read_count = read_count }

same_reads :
    (p : Platform) (read_count : ℕ → ℕ → ℕ) (file : EventFile) (cursor : Option EventLogCursor)
    (max_bytes : ℕ)
    → to_result (with_reads p read_count) cursor file (
        feeds
          (with_reads p read_count)
          (window (with_reads p read_count) file cursor max_bytes)
          (reader_at (start_of (with_reads p read_count) cursor file)))
      ≡ to_result p cursor file
          (feeds p (window p file cursor max_bytes) (reader_at (start_of p cursor file)))
unfolding feed commit_line commit_raw decode_line start_of is_reset cursor_matches_file hash_range
    compute_file_identity
same_reads p read_count file none max_bytes = refl
same_reads p read_count file (some cursor) max_bytes = refl

-- What a read returns does not depend on the size of the chunks, nor on how few bytes each read of
-- the file returns, as long as it returns some.
pub chunks_are_invisible :
    (p : Platform) (file : EventFile) (cursor : Option EventLogCursor)
    (max_bytes chunk_bytes other_chunk_bytes : ℕ) (read_count : ℕ → ℕ → ℕ)
    → ReadsSome p
    → ReadsSome (with_reads p read_count)
    → IsAllowed file max_bytes chunk_bytes
    → IsAllowed file max_bytes other_chunk_bytes
    → read_with (with_reads p read_count) file cursor max_bytes other_chunk_bytes
      ≡ read_with p file cursor max_bytes chunk_bytes
chunks_are_invisible p file cursor max_bytes chunk_bytes other_chunk_bytes read_count reads others
      ok allowed =
    read-feeds (with_reads p read_count) file cursor max_bytes other_chunk_bytes others allowed
    ∙ ap some (same_reads p read_count file cursor max_bytes)
    ∙ sym (read-feeds p file cursor max_bytes chunk_bytes reads ok)
