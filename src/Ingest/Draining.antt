-- ===== src/Ingest/Draining.antt =====
-- The synchronizer reaches the end of the log.
use agent_metrics.Prelude.{
  ℕ, zero, suc, ◌+◌, ◌-◌, ◌≡◌, ◌≤◌, ◌<◌, Bool, true, false, Option, some, ◌++◌, min, length, take,
  drop, arith, leb, leb→le, inl, inr, Bool-cases, Option-cases, append-nil, ap, sym, subst, ◌∙◌,
  length-append,
}
use agent_metrics.Sync.Utils.{whole}
use agent_metrics.Ingest.Files.{Platform, EventFile}
use agent_metrics.Ingest.Reader.{newline, index_of, default_read_chunk_bytes}
use agent_metrics.Ingest.Feeding.{IsPlain, IsPlain-nil, take-append}
use agent_metrics.Ingest.Chunks.{ReadsSome, length-take, length-drop, drop-all}
use agent_metrics.Ingest.Tiling.{joined}
use agent_metrics.Ingest.Window.{IsAllowed, window}
use agent_metrics.Ingest.Appending.{start_of-le}
use agent_metrics.Ingest.Projector.{Normalizer, Database, EventLogSignature, ingest_event_log}
use agent_metrics.Ingest.Ingesting.{at_end_of, written, ingest-written}
use agent_metrics.Ingest.Synchronizer.{at_end, drain}
use agent_metrics.Ingest.Advancing.{
  position, position-written, final, final-Tiles, final-offset, after-lines, stays, take-IsPlain,
  advances,
}

-- No stretch of the file without a newline is longer than this.
abbrev pub HasShortLines : EventFile → ℕ → Type 0
HasShortLines file most =
    (offset count : ℕ)
    → offset + count ≤ length file.bytes
    → IsPlain (take count (drop offset file.bytes))
    → count ≤ most

-- `k` times `gain`.
abbrev pub times : ℕ → ℕ → ℕ
times zero gain = 0
times (suc k) gain = gain + times k gain

module _ {V E N : Type 0} (p : Platform) (n : Normalizer V E N) (max_bytes longest : ℕ)
    (file : EventFile) (signature : EventLogSignature) (reads : ReadsSome p)
    (ok : IsAllowed file max_bytes default_read_chunk_bytes)
    (same_size : signature.size ≡ length file.bytes) (short : HasShortLines file longest)
    (fits : longest < max_bytes) where
  abbrev step : Database E N → Option (Bool × Database E N)
  step db = ingest_event_log p n (some (whole max_bytes)) (some signature) (some file) db

  abbrev at : Database E N → ℕ
  at db = position p n max_bytes file db

  -- Only a part of a line is left.
  abbrev IsDone : Database E N → Type 0
  IsDone db = IsPlain (drop (at db) file.bytes)

  abbrev next : Database E N → Database E N
  next db = written p n max_bytes file signature db

  abbrev ended : Database E N → Bool
  ended db =
      at_end_of (final p n max_bytes file db).records signature.size
        (final p n max_bytes file db).committed_offset

  step-next : (db : Database E N) → step db ≡ some (ended db, next db)
  step-next db = ingest-written p n max_bytes file signature db reads ok

  -- Where the rest of the file fits in the limit, only a part of a line is left.
  last-IsDone : (db : Database E N) → length file.bytes - at db ≤ max_bytes → IsDone (next db)
  last-IsDone db h =
      let moved = position-written p n max_bytes file signature db ok.size_is_safe in
      let left = after-lines p n max_bytes file db in
      let nothing =
        drop-all max_bytes (drop (at db) file.bytes)
          (omega (arith, length-drop (at db) file.bytes)) in
      subst IsPlain
        (sym (
          ap (λ k. drop k file.bytes) moved
          ∙ left
          ∙ ap (λ bs. (final p n max_bytes file db).pending ++ bs) nothing
          ∙ append-nil _))
        (final-Tiles p n max_bytes file db).plain

  -- The lengths of what a call reads.
  window-length :
      (db : Database E N)
      → length (joined (final-Tiles p n max_bytes file db).raws)
          + length (final p n max_bytes file db).pending
        ≡ min max_bytes (length file.bytes - at db)
  window-length db =
      let tiles = final-Tiles p n max_bytes file db in
      omega (
        arith,
        ap length tiles.covered,
        length-append (joined tiles.raws) (final p n max_bytes file db).pending,
        length-take max_bytes (drop (at db) file.bytes),
        length-drop (at db) file.bytes,
      )

  -- What is pending is a part of a line.
  pending-short : (db : Database E N) → length (final p n max_bytes file db).pending ≤ longest
  pending-short db =
      let s = final p n max_bytes file db in
      let left = after-lines p n max_bytes file db in
      let here : take (length s.pending) (drop s.committed_offset file.bytes) ≡ s.pending =
        ap (take (length s.pending)) left ∙ take-append s.pending _ in
      short s.committed_offset (length s.pending)
        (omega (
          arith,
          final-offset p n max_bytes file db,
          window-length db,
          start_of-le p db.cursor file,
        ))
        (subst IsPlain (sym here) (final-Tiles p n max_bytes file db).plain)

  -- Otherwise it advances by what the limit is more than a line.
  step-gain :
      (db : Database E N)
      → max_bytes ≤ length file.bytes - at db
      → at db + (max_bytes - longest) ≤ at (next db)
  step-gain db h = omega (
    arith,
    position-written p n max_bytes file signature db ok.size_is_safe,
    final-offset p n max_bytes file db,
    window-length db,
    pending-short db,
  )

  -- Where nothing happens, only a part of a line is left, since no line is as long as the limit.
  stuck-IsDone :
      (db : Database E N) → IsPlain (window p file db.cursor max_bytes) → IsDone (next db)
  stuck-IsDone db plain = elim (Bool-cases (leb (length file.bytes - at db) max_bytes)) [
    | inl little ↦ last-IsDone db (leb→le _ _ little)
    | inr much ↦ absurd (omega (arith, short (at db) max_bytes (ground arith) plain, fits))
  ]

  IsDone-ended : (db : Database E N) → IsDone db → (ended db ≡ true) × IsDone (next db)
  IsDone-ended db plain =
      let in_window = take-IsPlain max_bytes (drop (at db) file.bytes) plain in
      ((stays p n max_bytes file signature db in_window).2, stuck-IsDone db in_window)

  ended-IsDone : (db : Database E N) → ended db ≡ true → IsDone (next db)
  ended-IsDone db h = elim (Option-cases (index_of newline (window p file db.cursor max_bytes))) [
    | inl plain ↦ stuck-IsDone db plain
    | inr (i, found) ↦
        let (further, when) = advances p n max_bytes file signature db (λ plain. cc) in
        let moved = position-written p n max_bytes file signature db ok.size_is_safe in
        let past = leb→le signature.size _ (sym when ∙ h) in
        subst IsPlain (sym (drop-all (at (next db)) file.bytes (omega arith))) IsPlain-nil
  ]

  -- Enough rounds end at the end of the log.
  abbrev Finishes : ℕ → Database E N → Type 0
  Finishes rounds db =
      (after : Database E N) × (drain step rounds db ≡ (at_end, after)) × IsDone after

  ends : (rounds : ℕ) (db : Database E N) → ended db ≡ true → Finishes (suc rounds) db
  unfolding drain
  ends rounds db h = (next db, rw (step-next db, drain, h), ended-IsDone db h)

  goes_on :
      (rounds : ℕ) (db : Database E N)
      → ended db ≡ false
      → Finishes rounds (next db)
      → Finishes (suc rounds) db
  unfolding drain
  goes_on rounds db h (after, same, done) = (after, rw (step-next db, drain, h) same, done)

  done-Finishes : (rounds : ℕ) (db : Database E N) → IsDone db → Finishes (suc rounds) db
  done-Finishes rounds db done = ends rounds db (IsDone-ended db done).0

  pub drain-Finishes :
      (k : ℕ) (db : Database E N)
      → length file.bytes - at db ≤ times k (max_bytes - longest)
      → Finishes (suc (suc k)) db
  drain-Finishes zero db h =
      done-Finishes 1 db
        (subst IsPlain (sym (drop-all (at db) file.bytes (omega arith))) IsPlain-nil)
  drain-Finishes (suc k) db h = elim (Bool-cases (ended db)) [
    | inl over ↦ ends (suc (suc k)) db over
    | inr more ↦
        goes_on (suc (suc k)) db more
          (elim (Bool-cases (leb (length file.bytes - at db) max_bytes)) [
            | inl little ↦ done-Finishes (suc k) (next db) (last-IsDone db (leb→le _ _ little))
            | inr much ↦ drain-Finishes k (next db) (omega (arith, step-gain db (ground arith), h))
          ])
  ]
