-- ===== src/Ingest/Continuing.antt =====
-- What two reads of a log that grows find, and what one read finds.
use mathlib.Core.List.{foldl-append}
use agent_metrics.Prelude.{
  ℕ, zero, suc, ◌≡◌, ◌≤◌, refl, false, none, some, List, [], ◌∷◌, ◌++◌, length, take, drop, arith,
  append_assoc, append-nil, ap, sym, ◌∙◌, length-append,
}
use agent_metrics.Ingest.Files.{Platform, EventFile, prefix_hash_bytes}
use agent_metrics.Ingest.Reader.{
  Reader, reader_at, EventLogReadResult, to_result, is_reset, start_of,
}
use agent_metrics.Sync.Utils.{max_safe_integer}
use agent_metrics.Ingest.Feeding.{IsPlain-nil, feed, feeds, feeds-plain}
use agent_metrics.Ingest.Chunks.{length-take}
use agent_metrics.Ingest.Tiling.{joined, Tiles, feeds-Tiles}
use agent_metrics.Ingest.Window.{window}
use agent_metrics.Ingest.Appending.{appended, cursor-append, start_of-kept}
use agent_metrics.Ingest.Resuming.{Ahead, feeds-Ahead}

pub take-drop : (n : ℕ) (xs : List ℕ) → take n xs ++ drop n xs ≡ xs
take-drop zero xs = refl
take-drop (suc n) [] = refl
take-drop (suc n) (x ∷ xs) = ap (λ t. x ∷ t) (take-drop n xs)

pub take-all : (n : ℕ) (xs : List ℕ) → length xs ≤ n → take n xs ≡ xs
take-all zero [] h = refl
take-all zero (x ∷ xs) h = absurd (omega arith)
take-all (suc n) [] h = refl
take-all (suc n) (x ∷ xs) h = ap (λ t. x ∷ t) (take-all n xs (omega arith))

pub drop-length : (xs ys : List ℕ) → drop (length xs) (xs ++ ys) ≡ ys
drop-length [] ys = refl
drop-length (x ∷ xs) ys = drop-length xs ys

left_nil : (xs ys : List ℕ) → ys ≡ xs ++ ys → xs ≡ []
left_nil [] ys h = refl
left_nil (x ∷ xs) ys h = absurd (omega (arith, ap length h, length-append xs ys))

module _ (p : Platform) (file : EventFile) (more : List ℕ) (max_bytes : ℕ) where
  -- The first read, and what it has taken of the log.
  abbrev pub first_reader : Reader
  first_reader = feeds p (window p file none max_bytes) (reader_at 0)

  pub first_tiles : Tiles p (reader_at 0) (window p file none max_bytes) first_reader
  first_tiles = feeds-Tiles p (window p file none max_bytes) (reader_at 0) IsPlain-nil refl

  -- The reader after the complete lines of the first read.
  abbrev pub at_lines : Reader
  at_lines = feeds p (joined first_tiles.raws) (reader_at 0)

  same : window p file none max_bytes ≡ joined first_tiles.raws ++ first_reader.pending
  same = first_tiles.covered

  at_lines-first :
      first_reader ≡ record at_lines { pending = at_lines.pending ++ first_reader.pending }
  at_lines-first =
      ap (λ bs. feeds p bs (reader_at 0)) same
      ∙ foldl-append (feed p) (reader_at 0) (joined first_tiles.raws) first_reader.pending
      ∙ feeds-plain p first_reader.pending at_lines first_tiles.plain

  at_lines-pending : at_lines.pending ≡ []
  at_lines-pending =
      left_nil at_lines.pending first_reader.pending (ap (λ s. s.pending) at_lines-first)

  abbrev pub offset : ℕ
  offset = length (joined first_tiles.raws)

  first-offset :
      (first_reader.committed_offset ≡ offset) × (first_reader.pending_start_offset ≡ offset)
  first-offset = (
    omega (arith, first_tiles.started, first_tiles.committed),
    omega (arith, first_tiles.started),
  )

  at_lines-Ahead : Ahead first_reader at_lines (reader_at offset)
  at_lines-Ahead = record {
    lines = sym (ap (λ s. s.lines) at_lines-first) ∙ sym (append-nil first_reader.lines);
    records = sym (ap (λ s. s.records) at_lines-first) ∙ sym (append-nil first_reader.records);
    valid_lines =
        sym (ap (λ s. s.valid_lines) at_lines-first) ∙ sym (append-nil first_reader.valid_lines);
    malformed_lines =
        sym (ap (λ s. s.malformed_lines) at_lines-first)
        ∙ sym (append-nil first_reader.malformed_lines);
    pending = at_lines-pending;
    started = sym (ap (λ s. s.pending_start_offset) at_lines-first) ∙ first-offset.1;
    committed = sym (ap (λ s. s.committed_offset) at_lines-first) ∙ first-offset.0;
  }

  -- The bytes after the lines of the first read.
  abbrev pub tail : List ℕ
  tail = first_reader.pending ++ (drop max_bytes file.bytes ++ more)

  grown : file.bytes ++ more ≡ joined first_tiles.raws ++ tail
  unfolding start_of
  grown =
      ap (λ bs. bs ++ more) (sym (take-drop max_bytes file.bytes))
      ∙ append_assoc (take max_bytes file.bytes) (drop max_bytes file.bytes) more
      ∙ ap (λ bs. bs ++ (drop max_bytes file.bytes ++ more)) same
      ∙ append_assoc (joined first_tiles.raws) first_reader.pending _

  drop-grown : drop offset (file.bytes ++ more) ≡ tail
  drop-grown = ap (drop offset) grown ∙ drop-length (joined first_tiles.raws) tail

  -- One read of all, and the two reads.
  abbrev pub whole_reader : Reader
  whole_reader = feeds p (file.bytes ++ more) (reader_at 0)

  abbrev pub second_reader : Reader
  second_reader = feeds p tail (reader_at offset)

  pub whole-Ahead : Ahead first_reader whole_reader second_reader
  whole-Ahead =
      let split : whole_reader ≡ feeds p tail at_lines =
        ap (λ bs. feeds p bs (reader_at 0)) grown
        ∙ foldl-append (feed p) (reader_at 0) (joined first_tiles.raws) tail in
      rw (split) (feeds-Ahead p first_reader tail at_lines (reader_at offset) at_lines-Ahead)

  offset-le : offset ≤ length file.bytes
  unfolding start_of
  offset-le = omega (
    arith,
    ap length same,
    length-append (joined first_tiles.raws) first_reader.pending,
    length-take max_bytes file.bytes,
  )

  abbrev pub first_result : EventLogReadResult
  first_result = to_result p none file first_reader

  pub resumes :
      prefix_hash_bytes ≤ length file.bytes
      → length (file.bytes ++ more) ≤ max_safe_integer
      → (is_reset p (some first_result.next_cursor) (appended file more) ≡ false)
        × (start_of p (some first_result.next_cursor) (appended file more)
            ≡ first_result.next_offset)
  resumes large safe = start_of-kept p first_result.next_cursor (appended file more) (
      cursor-append p file more first_result.next_offset large
        (omega (arith, offset-le, first-offset.0)) safe)

  pub whole-feeds :
      (big : ℕ)
      → length (file.bytes ++ more) ≤ big
      → window p (appended file more) none big ≡ file.bytes ++ more
  unfolding start_of
  whole-feeds big h = take-all big (file.bytes ++ more) h

  pub second-feeds :
      (big : ℕ)
      → length (file.bytes ++ more) ≤ big
      → prefix_hash_bytes ≤ length file.bytes
      → length (file.bytes ++ more) ≤ max_safe_integer
      → feeds p
          (window p (appended file more) (some first_result.next_cursor) big)
          (reader_at (start_of p (some first_result.next_cursor) (appended file more)))
        ≡ second_reader
  second-feeds big h large safe =
      let at = (resumes large safe).1 ∙ first-offset.0 in
      let short : length tail ≤ big =
        omega (arith, ap length grown, length-append (joined first_tiles.raws) tail) in
      rw (at) (
        ap (λ bs. feeds p bs (reader_at offset))
          (ap (take big) drop-grown ∙ take-all big tail short))
