-- ===== src/Ingest/Ingesting.antt =====
-- What one call of `ingestEventLog` writes, and when it says that it is at the end.
use agent_metrics.Prelude.{
  ℕ, ◌+◌, ◌≡◌, refl, Bool, true, Option, none, some, List, [], ◌∷◌, ◌++◌, length, leb, ap, sym,
  subst, ◌∙◌,
}
use agent_metrics.Sync.Utils.{whole}
use agent_metrics.Ingest.Files.{Platform, EventFile, EventLogCursor}
use agent_metrics.Ingest.Reader.{
  Reader, reader_at, EventLogLineRecord, EventLogReadResult, to_result, read_event_log_incremental,
  default_read_chunk_bytes, start_of,
}
use agent_metrics.Ingest.Feeding.{feeds, IsPlain-nil}
use agent_metrics.Ingest.Chunks.{ReadsSome}
use agent_metrics.Ingest.Tiling.{feeds-Tiles}
use agent_metrics.Ingest.Window.{IsAllowed, read_with, read-feeds, window}
use agent_metrics.Ingest.Projector.{
  Normalizer, Database, EventLogSignature, batch_of, no_events, persist_projection_batch,
  ingest_result, ingest_event_log,
}
use agent_metrics.Ingest.Malformed.{AllFound, malformed_of, feeds-IsSorted, numbered-AllFound}
use agent_metrics.Ingest.Accounting.{
  events_of, accepted_of, reported_of, extended, loop-extended, judged-length,
}

-- Nothing was read, or the cursor has reached the size.
abbrev pub at_end_of : List EventLogLineRecord → ℕ → ℕ → Bool
at_end_of [] size offset = true
at_end_of (_ ∷ _) size offset = leb size offset

module _ {V E N : Type 0} (p : Platform) (n : Normalizer V E N) (max_bytes : ℕ)
    (file : EventFile) where
  -- The reader at the end of its loops.
  abbrev pub final_reader : Option EventLogCursor → Reader
  final_reader cursor =
      feeds p (window p file cursor max_bytes) (reader_at (start_of p cursor file))

  abbrev pub result_from : Option EventLogCursor → EventLogReadResult
  result_from cursor = to_result p cursor file (final_reader cursor)

  default-chunk :
      (cursor : Option EventLogCursor)
      → read_event_log_incremental p file cursor (some (whole max_bytes)) none
        ≡ read_with p file cursor max_bytes default_read_chunk_bytes
  unfolding read_event_log_incremental
  default-chunk cursor = refl

  records-AllFound :
      (cursor : Option EventLogCursor)
      → AllFound p (final_reader cursor).malformed_lines (final_reader cursor).records
  records-AllFound cursor =
      let bs = window p file cursor max_bytes in
      let start = start_of p cursor file in
      let tiles = feeds-Tiles p bs (reader_at start) IsPlain-nil refl in
      let same : (final_reader cursor).malformed_lines
          ≡ malformed_of p (final_reader cursor).records =
        feeds-IsSorted p bs (reader_at start) refl in
      subst (λ ms. AllFound p ms (final_reader cursor).records) (sym same)
        (subst (λ rs. AllFound p (malformed_of p rs) rs) (sym tiles.recorded)
          (numbered-AllFound p [] start tiles.raws tt))

  batch-extended :
      (cursor : Option EventLogCursor)
      → batch_of p n (result_from cursor)
        ≡ extended p n (no_events p n) (final_reader cursor).records
  batch-extended cursor =
      loop-extended p n (final_reader cursor).malformed_lines (final_reader cursor).records
        (no_events p n) (records-AllFound cursor)

  -- The database after a call.
  abbrev pub written : EventLogSignature → Database E N → Database E N
  written signature db =
      persist_projection_batch p n (extended p n (no_events p n) (final_reader db.cursor).records)
        (result_from db.cursor).next_cursor signature db

  ingest_result-lem :
      (r : EventLogReadResult) (rs : List EventLogLineRecord) (signature : EventLogSignature)
      (db : Database E N)
      → batch_of p n r ≡ extended p n (no_events p n) rs
      → ingest_result p n r rs signature db ≡ (
        at_end_of rs signature.size r.next_cursor.committed_offset,
        persist_projection_batch p n (extended p n (no_events p n) rs) r.next_cursor signature db,
      )
  unfolding ingest_result
  ingest_result-lem r [] signature db h = refl
  ingest_result-lem r (x ∷ rs) signature db h =
      ap
        (λ b. (
          leb signature.size r.next_cursor.committed_offset,
          persist_projection_batch p n b r.next_cursor signature db,
        ))
        h

  pub ingest-written :
      (signature : EventLogSignature) (db : Database E N)
      → ReadsSome p
      → IsAllowed file max_bytes default_read_chunk_bytes
      → ingest_event_log p n (some (whole max_bytes)) (some signature) (some file) db
        ≡ some (
          at_end_of
              (final_reader db.cursor).records
              signature.size
              (final_reader db.cursor).committed_offset,
          written signature db,
        )
  unfolding ingest_event_log
  ingest-written signature db reads ok =
      rw
        (
          default-chunk db.cursor
              ∙ read-feeds p file db.cursor max_bytes default_read_chunk_bytes reads ok,
          ingest_event_log,
        )
        (ap some (
          ingest_result-lem (result_from db.cursor) (final_reader db.cursor).records signature db
            (batch-extended db.cursor)))

-- A call of `ingestEventLog` on a log that is there, with an allowed limit, returns, if reads of
-- bytes that are there return some. It writes the cursor that the read returns together with what
-- it makes of the lines: the events of the lines that are JSON and match the schema, in their
-- order; the normalized events of those that the normalization accepts, in their order; and for
-- each other line one diagnostic. Each record is either accepted or reported.
pub ingest_accounts_for_lines :
    {V E N : Type 0} (p : Platform) (n : Normalizer V E N) (max_bytes : ℕ) (file : EventFile)
    (signature : EventLogSignature) (db : Database E N)
    → ReadsSome p
    → IsAllowed file max_bytes default_read_chunk_bytes
    → (r : EventLogReadResult) × ((at_end : Bool) × ((after : Database E N) × (read_with p file
              db.cursor max_bytes default_read_chunk_bytes
            ≡ some r)
          × (ingest_event_log p n (some (whole max_bytes)) (some signature) (some file) db
              ≡ some (at_end, after))
          × (after.cursor ≡ some r.next_cursor)
          × (after.legacy_events ≡ db.legacy_events ++ events_of p n r.records)
          × (after.projected_events ≡ db.projected_events ++ accepted_of p n r.records)
          × (after.diagnostics ≡ db.diagnostics ++ reported_of p n r.records)
          × (length (accepted_of p n r.records) + length (reported_of p n r.records)
              ≡ length r.records)))
unfolding persist_projection_batch
ingest_accounts_for_lines p n max_bytes file signature db reads ok =
    let s = final_reader p n max_bytes file db.cursor in
    (
      result_from p n max_bytes file db.cursor,
      (
        at_end_of s.records signature.size s.committed_offset,
        (
          written p n max_bytes file signature db,
          read-feeds p file db.cursor max_bytes default_read_chunk_bytes reads ok,
          ingest-written p n max_bytes file signature db reads ok,
          refl,
          refl,
          refl,
          refl,
          judged-length p n s.records,
        ),
      ),
    )
