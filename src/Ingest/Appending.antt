-- ===== src/Ingest/Appending.antt =====
-- A log that grows keeps its identity and its cursors, once it has 4 KiB.
use agent_metrics.Prelude.{
  ℕ, zero, suc, ◌+◌, ◌-◌, ◌≡◌, ◌≤◌, refl, true, false, Option, none, some, List, [], ◌∷◌, ◌++◌, min,
  length, take, drop, arith, ap, sym, ◌∙◌, length-append, le→leb,
}
use agent_metrics.Prelude.Texts.{=s_of_eq}
use agent_metrics.Sync.Utils.{max_safe_integer}
use agent_metrics.Ingest.Files.{
  Platform, EventFile, EventLogCursor, prefix_hash, prefix_hash_bytes, read_range, hash_range,
  compute_file_identity, cursor_matches_file,
}
use agent_metrics.Ingest.Reader.{is_reset, start_of}
use agent_metrics.Ingest.Chunks.{length-drop}

abbrev pub appended : EventFile → List ℕ → EventFile
appended file more = record file { bytes = file.bytes ++ more }

take-append-le : (n : ℕ) (xs ys : List ℕ) → n ≤ length xs → take n (xs ++ ys) ≡ take n xs
take-append-le zero xs ys h = refl
take-append-le (suc n) [] ys h = absurd (omega arith)
take-append-le (suc n) (x ∷ xs) ys h = ap (λ t. x ∷ t) (take-append-le n xs ys (omega arith))

pub drop-append-le : (n : ℕ) (xs ys : List ℕ) → n ≤ length xs → drop n (xs ++ ys) ≡ drop n xs ++ ys
drop-append-le zero xs ys h = refl
drop-append-le (suc n) [] ys h = absurd (omega arith)
drop-append-le (suc n) (x ∷ xs) ys h = drop-append-le n xs ys (omega arith)

-- A range inside the old file.
read_range-append :
    (file : EventFile) (more : List ℕ) (start count : ℕ)
    → start + count ≤ length file.bytes
    → read_range (appended file more) start count ≡ read_range file start count
unfolding read_range
read_range-append file more start count h =
    ap (take count) (drop-append-le start file.bytes more (omega arith))
    ∙ take-append-le count (drop start file.bytes) more
        (omega (arith, length-drop start file.bytes))

module _ (p : Platform) (file : EventFile) (more : List ℕ) where
  pub prefix_hash-append :
      (offset : ℕ)
      → offset ≤ length file.bytes
      → prefix_hash p (appended file more) offset ≡ prefix_hash p file offset
  unfolding hash_range
  prefix_hash-append offset h =
      let start = offset - min offset prefix_hash_bytes in
      rw (read_range-append file more start (offset - start) (omega arith))

  pub identity-append :
      prefix_hash_bytes ≤ length file.bytes
      → compute_file_identity p (appended file more) ≡ compute_file_identity p file
  unfolding compute_file_identity
  identity-append h =
      let size : min prefix_hash_bytes (length (file.bytes ++ more)) ≡ prefix_hash_bytes =
        omega (arith, length-append file.bytes more) in
      let old : min prefix_hash_bytes (length file.bytes) ≡ prefix_hash_bytes = omega arith in
      ap
        (λ head.
          p.sha_text (p.identity_json file.canonical_path file.creation_time (p.sha_bytes head)))
        (ap (read_range (appended file more) 0) size
          ∙ read_range-append file more 0 prefix_hash_bytes (omega arith)
          ∙ sym (ap (read_range file 0) old))

  -- A cursor that was made for the old file stands in the new one.
  pub cursor-append :
      (offset : ℕ)
      → prefix_hash_bytes ≤ length file.bytes
      → offset ≤ length file.bytes
      → length (file.bytes ++ more) ≤ max_safe_integer
      → cursor_matches_file p
          (record {
            file_identity = compute_file_identity p file;
            committed_offset = offset;
            committed_prefix_hash = prefix_hash p file offset;
          })
          (compute_file_identity p (appended file more))
          (appended file more)
        ≡ true
  unfolding cursor_matches_file
  cursor-append offset large inside safe =
      rw
        (
          =s_of_eq _ _ (sym (identity-append large)),
          le→leb offset max_safe_integer (omega (arith, length-append file.bytes more)),
          le→leb offset (length (file.bytes ++ more))
              (omega (arith, length-append file.bytes more)),
        )
        (=s_of_eq _ _ (prefix_hash-append offset inside))

-- The start lies in the file.
pub start_of-le :
    (p : Platform) (cursor : Option EventLogCursor) (file : EventFile)
    → start_of p cursor file ≤ length file.bytes
unfolding start_of is_reset cursor_matches_file
start_of-le p none file = omega arith
start_of-le p (some cursor) file = ground arith

pub start_of-kept :
    (p : Platform) (cursor : EventLogCursor) (file : EventFile)
    → cursor_matches_file p cursor (compute_file_identity p file) file ≡ true
    → (is_reset p (some cursor) file ≡ false)
      × (start_of p (some cursor) file ≡ cursor.committed_offset)
unfolding start_of is_reset
start_of-kept p cursor file h = rw (h) (refl, refl)
