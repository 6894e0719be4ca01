-- ===== src/Ingest/Progress.antt =====
-- When a call of `ingestEventLog` advances the cursor, and when it is at the end.
use agent_metrics.Prelude.{
  ℕ, ◌≡◌, ◌≢◌, ◌<◌, Bool, true, none, some, leb, inl, inr, ◌⊎◌, Option-cases, ap, sym, subst, ◌∙◌,
}
use agent_metrics.Sync.Utils.{whole}
use agent_metrics.Ingest.Files.{Platform, EventFile}
use agent_metrics.Ingest.Reader.{newline, index_of, default_read_chunk_bytes, start_of}
use agent_metrics.Ingest.Chunks.{ReadsSome}
use agent_metrics.Ingest.Window.{IsAllowed, window}
use agent_metrics.Ingest.Projector.{Normalizer, Database, EventLogSignature, ingest_event_log}
use agent_metrics.Ingest.Ingesting.{at_end_of, final_reader, written, ingest-written}
use agent_metrics.Ingest.Advancing.{position, position-written, stays, advances}

-- A call on a log that is there, with an allowed limit, if reads of bytes that are there return
-- some. Where the bytes from the cursor up to the limit have a newline, the cursor advances, and the
-- call says that it is at the end exactly when the cursor has reached the size. Where they have
-- none, it says that it is at the end and the cursor stays, whatever follows in the file: so it
-- does before a line that is longer than the limit.
pub ingest_progress :
    {V E N : Type 0} (p : Platform) (n : Normalizer V E N) (max_bytes : ℕ) (file : EventFile)
    (signature : EventLogSignature) (db : Database E N)
    → ReadsSome p
    → IsAllowed file max_bytes default_read_chunk_bytes
    → (at_end : Bool) × ((after : Database E N) × (ingest_event_log p n
            (some (whole max_bytes))
            (some signature)
            (some file)
            db
          ≡ some (at_end, after))
        × (((index_of newline (window p file db.cursor max_bytes) ≢ none)
              × (start_of p db.cursor file < start_of p after.cursor file)
              × (at_end ≡ leb signature.size (start_of p after.cursor file)))
            ⊎ ((index_of newline (window p file db.cursor max_bytes) ≡ none)
                × (start_of p after.cursor file ≡ start_of p db.cursor file)
                × (at_end ≡ true))))
ingest_progress p n max_bytes file signature db reads ok =
    let s = final_reader p n max_bytes file db.cursor in
    let at = position-written p n max_bytes file signature db ok.size_is_safe in
    (
      at_end_of s.records signature.size s.committed_offset,
      (
        written p n max_bytes file signature db,
        ingest-written p n max_bytes file signature db reads ok,
        elim (Option-cases (index_of newline (window p file db.cursor max_bytes))) [
          | inl plain ↦
              let (none_read, same, ended) = stays p n max_bytes file signature db plain in
              inr (plain, at ∙ same, ended)
          | inr (i, found) ↦
              let lines : index_of newline (window p file db.cursor max_bytes) ≢ none =
                λ plain. cc in
              let (further, when) = advances p n max_bytes file signature db lines in
              inl (
                lines,
                subst (λ k. position p n max_bytes file db < k) (sym at) further,
                when ∙ ap (leb signature.size) (sym at),
              )
        ],
      ),
    )
