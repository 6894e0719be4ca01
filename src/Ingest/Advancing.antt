-- ===== src/Ingest/Advancing.antt =====
-- How far one call of `ingestEventLog` comes.
use agent_metrics.Prelude.{
  ℕ, zero, suc, ◌+◌, ◌≡◌, ◌≤◌, ◌<◌, refl, true, List, [], ◌∷◌, ◌++◌, length, take, drop, arith, leb,
  append_assoc, ap, sym, subst, ◌∙◌, length-append, le→leb,
}
use agent_metrics.Prelude.Texts.{=s_refl}
use agent_metrics.Sync.Utils.{max_safe_integer}
use agent_metrics.Ingest.Files.{
  Platform, EventFile, cursor_matches_file, compute_file_identity, prefix_hash,
}
use agent_metrics.Ingest.Reader.{Reader, reader_at, newline, index_of, start_of}
use agent_metrics.Ingest.Feeding.{IsPlain, IsPlain-nil, IsPlain-head, IsPlain-cons}
use agent_metrics.Ingest.Chunks.{length-take, length-drop, drop-add}
use agent_metrics.Ingest.Tiling.{joined, numbered, Tiles, feeds-Tiles}
use agent_metrics.Ingest.Window.{window}
use agent_metrics.Ingest.Appending.{start_of-le, start_of-kept}
use agent_metrics.Ingest.Continuing.{take-drop, drop-length}
use agent_metrics.Ingest.Projector.{
  Normalizer, Database, EventLogSignature, persist_projection_batch,
}
use agent_metrics.Ingest.Ingesting.{at_end_of, final_reader, written}

has_newline : (xs ys : List ℕ) → IsPlain (xs ++ newline ∷ ys) → ⊥
unfolding index_of
has_newline [] ys h = cc
has_newline (x ∷ xs) ys h = has_newline xs ys (IsPlain-head x (xs ++ newline ∷ ys) h).1

-- Plain bytes have no complete lines.
plain-raws : (raws : List (List ℕ)) (rest : List ℕ) → IsPlain (joined raws ++ rest) → raws ≡ []
plain-raws [] rest h = refl
plain-raws (raw ∷ raws) rest h = absurd (
    has_newline raw (joined raws ++ rest)
      (subst IsPlain (append_assoc raw (newline ∷ joined raws) rest) h))

-- The offset after so many lines.
joined-pos : (raw : List ℕ) (raws : List (List ℕ)) → 0 < length (joined (raw ∷ raws))
joined-pos raw raws = omega (arith, length-append raw (newline ∷ joined raws))

pub take-IsPlain : (n : ℕ) (bs : List ℕ) → IsPlain bs → IsPlain (take n bs)
unfolding index_of
take-IsPlain zero bs h = refl
take-IsPlain (suc n) [] h = refl
take-IsPlain (suc n) (b ∷ bs) h =
    let (differs, rest) = IsPlain-head b bs h in
    IsPlain-cons b (take n bs) differs (take-IsPlain n bs rest)

module _ {V E N : Type 0} (p : Platform) (n : Normalizer V E N) (max_bytes : ℕ)
    (file : EventFile) where
  -- Where the next read begins.
  abbrev pub position : Database E N → ℕ
  position db = start_of p db.cursor file

  abbrev pub final : Database E N → Reader
  final db = final_reader p n max_bytes file db.cursor

  pub final-Tiles :
      (db : Database E N)
      → Tiles p (reader_at (position db)) (window p file db.cursor max_bytes) (final db)
  final-Tiles db = feeds-Tiles p _ (reader_at (position db)) IsPlain-nil refl

  pub final-offset :
      (db : Database E N)
      → (final db).committed_offset ≡ position db + length (joined (final-Tiles db).raws)
  final-offset db = (final-Tiles db).committed ∙ (final-Tiles db).started

  -- What is left of the file after the lines.
  pub after-lines :
      (db : Database E N)
      → drop (final db).committed_offset file.bytes
        ≡ (final db).pending ++ drop max_bytes (drop (position db) file.bytes)
  after-lines db =
      let tiles = final-Tiles db in
      let left = drop (position db) file.bytes in
      let whole_left : left ≡ joined tiles.raws ++ ((final db).pending ++ drop max_bytes left) =
        sym (take-drop max_bytes left)
        ∙ ap (λ bs. bs ++ drop max_bytes left) tiles.covered
        ∙ append_assoc (joined tiles.raws) (final db).pending _ in
      drop-add (position db) (length (joined tiles.raws)) (final db).committed_offset file.bytes
        (final-offset db)
      ∙ ap (drop (length (joined tiles.raws))) whole_left
      ∙ drop-length (joined tiles.raws) _

  pub final-le : (db : Database E N) → (final db).committed_offset ≤ length file.bytes
  final-le db =
      let tiles = final-Tiles db in
      omega (
        arith,
        final-offset db,
        ap length tiles.covered,
        length-append (joined tiles.raws) (final db).pending,
        length-take max_bytes (drop (position db) file.bytes),
        length-drop (position db) file.bytes,
        start_of-le p db.cursor file,
      )

  own-cursor :
      (offset : ℕ)
      → offset ≤ length file.bytes
      → length file.bytes ≤ max_safe_integer
      → cursor_matches_file p
          (record {
            file_identity = compute_file_identity p file;
            committed_offset = offset;
            committed_prefix_hash = prefix_hash p file offset;
          })
          (compute_file_identity p file)
          file
        ≡ true
  unfolding cursor_matches_file
  own-cursor offset inside safe =
      rw
        (
          =s_refl (compute_file_identity p file),
          le→leb offset max_safe_integer (omega arith),
          le→leb offset (length file.bytes) inside,
        )
        (=s_refl (prefix_hash p file offset))

  -- The next read begins there.
  pub position-written :
      (signature : EventLogSignature) (db : Database E N)
      → length file.bytes ≤ max_safe_integer
      → position (written p n max_bytes file signature db) ≡ (final db).committed_offset
  unfolding persist_projection_batch
  position-written signature db safe =
      (start_of-kept p _ file (own-cursor (final db).committed_offset (final-le db) safe)).1

  -- Without a newline in the window nothing happens, and the call is at the end.
  abbrev pub Stays : EventLogSignature → Database E N → Type 0
  Stays signature db =
      ((final db).records ≡ [])
      × ((final db).committed_offset ≡ position db)
      × (at_end_of (final db).records signature.size (final db).committed_offset ≡ true)

  pub stays :
      (signature : EventLogSignature) (db : Database E N)
      → IsPlain (window p file db.cursor max_bytes)
      → Stays signature db
  stays signature db plain =
      let tiles = final-Tiles db in
      let no_lines = plain-raws tiles.raws (final db).pending (subst IsPlain tiles.covered plain) in
      let no_records : (final db).records ≡ [] =
        tiles.recorded ∙ ap (numbered p (position db)) no_lines in
      let same : length (joined tiles.raws) ≡ 0 = ap (λ raws. length (joined raws)) no_lines in
      (
        no_records,
        omega (arith, final-offset db, same),
        ap (λ rs. at_end_of rs signature.size (final db).committed_offset) no_records,
      )

  -- With one it advances, and is at the end when it has reached the size.
  abbrev pub Advances : EventLogSignature → Database E N → Type 0
  Advances signature db =
      (position db < (final db).committed_offset)
      × (at_end_of (final db).records signature.size (final db).committed_offset
          ≡ leb signature.size (final db).committed_offset)

  pub advances :
      (signature : EventLogSignature) (db : Database E N)
      → (IsPlain (window p file db.cursor max_bytes) → ⊥)
      → Advances signature db
  advances signature db lines = go tiles.raws tiles.covered tiles.recorded (final-offset db)
    where
      tiles : Tiles p (reader_at (position db)) (window p file db.cursor max_bytes) (final db)
      tiles = final-Tiles db

      go :
          (raws : List (List ℕ))
          → window p file db.cursor max_bytes ≡ joined raws ++ (final db).pending
          → (final db).records ≡ numbered p (position db) raws
          → (final db).committed_offset ≡ position db + length (joined raws)
          → Advances signature db
      go [] covered recorded at = absurd (lines (subst IsPlain (sym covered) tiles.plain))
      go (raw ∷ raws) covered recorded at = (
        omega (arith, at, joined-pos raw raws),
        ap (λ rs. at_end_of rs signature.size (final db).committed_offset) recorded,
      )
