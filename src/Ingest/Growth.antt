-- ===== src/Ingest/Growth.antt =====
-- Two reads of a log that grows between them.
use agent_metrics.Prelude.{ℕ, ◌≡◌, ◌≤◌, false, none, some, List, ◌++◌, length, ap, ◌∙◌}
use agent_metrics.Ingest.Files.{
  Platform, EventFile, prefix_hash_bytes, prefix_hash, compute_file_identity, decode_line,
}
use agent_metrics.Ingest.Reader.{reader_at, EventLogReadResult, to_result, start_of}
use agent_metrics.Ingest.Feeding.{feeds}
use agent_metrics.Ingest.Chunks.{ReadsSome}
use agent_metrics.Ingest.Window.{IsAllowed, read_with, read-feeds}
use agent_metrics.Ingest.Appending.{appended}
use agent_metrics.Ingest.Continuing.{
  first_result, second_reader, whole_reader, resumes, whole-feeds, second-feeds, whole-Ahead,
}

-- A log of at least 4 KiB is read from its beginning, up to any limit, and then grows. A second read
-- with the cursor of the first, and a limit that is not below the size, is not reset and starts
-- where the first one stopped. The lines of the two reads, their records with the offsets, and
-- which of them are valid or malformed are together those of one read of the grown log from its
-- beginning, and the cursor and the rest after the second read are those after that one.
pub resume_after_append :
    (p : Platform) (file : EventFile) (more : List ℕ) (max_bytes chunk_bytes big : ℕ)
    → ReadsSome p
    → prefix_hash_bytes ≤ length file.bytes
    → length (file.bytes ++ more) ≤ big
    → IsAllowed file max_bytes chunk_bytes
    → IsAllowed (appended file more) big chunk_bytes
    → (first : EventLogReadResult) × ((second : EventLogReadResult) × ((all : EventLogReadResult)
          × (read_with p file none max_bytes chunk_bytes ≡ some first)
          × (read_with p (appended file more) (some first.next_cursor) big chunk_bytes
              ≡ some second)
          × (read_with p (appended file more) none big chunk_bytes ≡ some all)
          × (second.reset ≡ false)
          × (second.start_offset ≡ first.next_offset)
          × (all.lines ≡ first.lines ++ second.lines)
          × (all.records ≡ first.records ++ second.records)
          × (all.valid_lines ≡ first.valid_lines ++ second.valid_lines)
          × (all.malformed_lines ≡ first.malformed_lines ++ second.malformed_lines)
          × (all.next_cursor ≡ second.next_cursor)
          × (all.trailing_line ≡ second.trailing_line)))
unfolding start_of
resume_after_append p file more max_bytes chunk_bytes big reads large within ok allowed =
    let grown_file = appended file more in
    let cursor = (first_result p file more max_bytes).next_cursor in
    let safe = allowed.size_is_safe in
    let (kept, at) = resumes p file more max_bytes large safe in
    let ahead = whole-Ahead p file more max_bytes in
    (
      first_result p file more max_bytes,
      (
        to_result p (some cursor) grown_file (second_reader p file more max_bytes),
        (
          to_result p none grown_file (whole_reader p file more max_bytes),
          read-feeds p file none max_bytes chunk_bytes reads ok,
          read-feeds p grown_file (some cursor) big chunk_bytes reads allowed
              ∙ ap (λ s. some (to_result p (some cursor) grown_file s))
                  (second-feeds p file more max_bytes big within large safe),
          read-feeds p grown_file none big chunk_bytes reads allowed
              ∙ ap (λ bs. some (to_result p none grown_file (feeds p bs (reader_at 0))))
                  (whole-feeds p file more max_bytes big within),
          kept,
          at,
          ahead.lines,
          ahead.records,
          ahead.valid_lines,
          ahead.malformed_lines,
          ap
              (λ offset. record {
                file_identity = compute_file_identity p grown_file;
                committed_offset = offset;
                committed_prefix_hash = prefix_hash p grown_file offset;
              })
              ahead.committed,
          ap (λ bs. decode_line p bs false) ahead.pending,
        ),
      ),
    )
