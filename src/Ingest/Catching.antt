-- ===== src/Ingest/Catching.antt =====
-- One call of the synchronizer reads the whole log.
use agent_metrics.Prelude.{
  ℕ, zero, suc, ◌-◌, ◌*◌, ◌≡◌, ◌≤◌, ◌<◌, refl, false, Option, some, length, drop, arith,
}
use agent_metrics.Sync.Utils.{whole}
use agent_metrics.Ingest.Files.{Platform, EventFile}
use agent_metrics.Ingest.Reader.{default_read_chunk_bytes, start_of}
use agent_metrics.Ingest.Feeding.{IsPlain}
use agent_metrics.Ingest.Chunks.{ReadsSome}
use agent_metrics.Ingest.Window.{IsAllowed}
use agent_metrics.Ingest.Projector.{Normalizer, Database, EventLogSignature, ingest_event_log}
use agent_metrics.Ingest.Synchronizer.{synchronize, is_same_event_log_signature}
use agent_metrics.Ingest.Draining.{HasShortLines, times, drain-Finishes}

times-mul : (k gain : ℕ) → times k gain ≡ k * gain
times-mul zero gain = grind arith
times-mul (suc k) gain = let rest = times-mul k gain in grind arith

-- A log is there that differs from the one that was drained last, and stays as it is during the
-- call; no stretch of it without a newline is longer than `longest`, which is less than the limit;
-- and it is no longer than 510 times the difference. Then one call of the synchronizer, whatever
-- the database has for a cursor, ends within its 512 rounds, and the cursor has no complete line
-- after it; the log is remembered as drained.
pub synchronizer_catches_up :
    {V E N : Type 0} (p : Platform) (n : Normalizer V E N) (max_bytes longest : ℕ)
    (file : EventFile) (signature : EventLogSignature) (last : Option EventLogSignature)
    (db : Database E N)
    → ReadsSome p
    → IsAllowed file max_bytes default_read_chunk_bytes
    → signature.size ≡ length file.bytes
    → HasShortLines file longest
    → longest < max_bytes
    → length file.bytes ≤ 510 * (max_bytes - longest)
    → is_same_event_log_signature (some signature) last ≡ false
    → (after : Database E N) × (synchronize
          (ingest_event_log p n (some (whole max_bytes)) (some signature) (some file))
          (some signature)
          (last, db)
        ≡ (some signature, after))
      × IsPlain (drop (start_of p after.cursor file) file.bytes)
unfolding synchronize
synchronizer_catches_up p n max_bytes longest file signature last db reads ok same_size short fits
      small differs =
    let (after, drained, done) =
      drain-Finishes p n max_bytes longest file signature reads ok same_size short fits 510 db
        (omega (arith, times-mul 510 (max_bytes - longest))) in
    (after, rw (differs, drained) refl, done)
