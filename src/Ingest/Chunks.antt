-- ===== src/Ingest/Chunks.antt =====
-- The outer loop of the reader: the chunks are the window.
use agent_metrics.Prelude.{
  ℕ, zero, suc, ◌+◌, ◌-◌, ◌≡◌, ◌≤◌, ◌<◌, refl, false, ◌&&◌, ltb, List, [], ◌∷◌, ◌++◌, min, length,
  take, drop, arith, inl, inr, Bool-cases, ap, sym, ◌∙◌,
}
use mathlib.Core.List.{foldl-append}
use agent_metrics.Ingest.Files.{Platform, EventFile}
use agent_metrics.Ingest.Reader.{Reader, next_chunk, read_chunks}
use agent_metrics.Ingest.Feeding.{IsPlain, feed, feeds, commit_chunk, feeds-IsPlain}

-- A read of at least one byte that is there returns at least one.
abbrev pub ReadsSome : Platform → Type 0
ReadsSome p = (offset n : ℕ) → 0 < n → 0 < p.read_count offset n

pub length-take : (n : ℕ) (xs : List ℕ) → length (take n xs) ≡ min n (length xs)
length-take zero xs = omega arith
length-take (suc n) [] = omega arith
length-take (suc n) (x ∷ xs) = omega (arith, length-take n xs)

pub length-drop : (n : ℕ) (xs : List ℕ) → length (drop n xs) ≡ length xs - n
length-drop zero xs = omega arith
length-drop (suc n) [] = omega arith
length-drop (suc n) (x ∷ xs) = omega (arith, length-drop n xs)

pub drop-all : (n : ℕ) (xs : List ℕ) → length xs ≤ n → drop n xs ≡ []
drop-all zero [] h = refl
drop-all zero (x ∷ xs) h = absurd (omega arith)
drop-all (suc n) [] h = refl
drop-all (suc n) (x ∷ xs) h = drop-all n xs (omega arith)

pub take-nil : (n : ℕ) → ◌≡◌ {A = List ℕ} (take n []) []
take-nil zero = refl
take-nil (suc n) = refl

pub drop-nil : (n : ℕ) → ◌≡◌ {A = List ℕ} (drop n []) []
drop-nil zero = refl
drop-nil (suc n) = refl

pub drop-add : (a b c : ℕ) (xs : List ℕ) → c ≡ a + b → drop c xs ≡ drop b (drop a xs)
drop-add zero b c xs e = let e' : c ≡ b = omega arith in rw e'
drop-add (suc a) b c [] e = drop-nil c ∙ sym (drop-nil b)
drop-add (suc a) b zero (x ∷ xs) e = absurd (omega arith)
drop-add (suc a) b (suc c) (x ∷ xs) e = drop-add a b c xs (omega arith)

pub take-add : (a b c : ℕ) (xs : List ℕ) → c ≡ a + b → take c xs ≡ take a xs ++ take b (drop a xs)
take-add zero b c xs e = let e' : c ≡ b = omega arith in rw e'
take-add (suc a) b c [] e = take-nil c ∙ sym (take-nil b)
take-add (suc a) b zero (x ∷ xs) e = absurd (omega arith)
take-add (suc a) b (suc c) (x ∷ xs) e = ap (λ t. x ∷ t) (take-add a b c xs (omega arith))

module _ (p : Platform) (max_bytes chunk_bytes : ℕ) (file : EventFile) where
  -- The bytes that are left to read.
  abbrev window : ℕ → ℕ → List ℕ
  window read_offset bytes_read = take (max_bytes - bytes_read) (drop read_offset file.bytes)

  -- A chunk has so many bytes, at least one where something is left, and no more than that.
  chunk_length :
      (read_offset bytes_read : ℕ)
      → ReadsSome p
      → 0 < chunk_bytes
      → read_offset < length file.bytes
      → bytes_read < max_bytes
      → (k : ℕ) × (next_chunk p max_bytes chunk_bytes file read_offset bytes_read
          ≡ take (suc k) (drop read_offset file.bytes))
        × (length (next_chunk p max_bytes chunk_bytes file read_offset bytes_read) ≡ suc k)
        × (suc k ≤ max_bytes - bytes_read)
        × (suc k ≤ length file.bytes - read_offset)
  unfolding next_chunk
  chunk_length off n reads pos inside below =
      let size = length file.bytes in
      let asked = min (min chunk_bytes (max_bytes - n)) (size - off) in
      let some_asked : 0 < asked = omega arith in
      let got = min (p.read_count off asked) asked in
      let some_got : got ≡ suc (got - 1) = omega (arith, reads off asked some_asked) in
      (
        got - 1,
        ap (λ t. take t (drop off file.bytes)) some_got,
        omega (arith, length-take got (drop off file.bytes), length-drop off file.bytes),
        omega arith,
        omega arith,
      )

  -- The chunk is the beginning of the window.
  window_split :
      (off n k : ℕ) (chunk : List ℕ)
      → chunk ≡ take (suc k) (drop off file.bytes)
      → length chunk ≡ suc k
      → suc k ≤ max_bytes - n
      → window off n ≡ chunk ++ window (off + length chunk) (n + length chunk)
  window_split off n k chunk start size within =
      let more = max_bytes - (n + length chunk) in
      take-add (suc k) more (max_bytes - n) (drop off file.bytes) (omega arith)
      ∙ ap (λ t. take (suc k) (drop off file.bytes) ++ take more t)
          (sym (drop-add off (suc k) (off + length chunk) file.bytes (omega arith)))
      ∙ ap (λ t. t ++ window (off + length chunk) (n + length chunk)) (sym start)

  window_empty :
      (off n : ℕ) → (ltb off (length file.bytes) && ltb n max_bytes) ≡ false → window off n ≡ []
  window_empty off n h = elim (Bool-cases (ltb off (length file.bytes))) [
    | inl inside ↦ let spent : max_bytes - n ≡ 0 = ground arith in rw spent
    | inr past ↦ rw (drop-all off file.bytes (ground arith)) (take-nil (max_bytes - n))
  ]

  pub read_chunks-feeds :
      (fuel read_offset bytes_read : ℕ) (s : Reader)
      → ReadsSome p
      → 0 < chunk_bytes
      → length file.bytes - read_offset < fuel
      → IsPlain s.pending
      → read_chunks p max_bytes chunk_bytes file fuel read_offset bytes_read s
        ≡ feeds p (window read_offset bytes_read) s
  unfolding read_chunks
  read_chunks-feeds zero off n s reads pos enough plain = absurd (omega arith)
  read_chunks-feeds (suc fuel) off n s reads pos enough plain =
      elim (Bool-cases (ltb off (length file.bytes) && ltb n max_bytes)) [
        | inl more ↦
            let inside : off < length file.bytes = ground arith in
            let below : n < max_bytes = ground arith in
            let (k, chunk_eq, size, within, there) = chunk_length off n reads pos inside below in
            let chunk = next_chunk p max_bytes chunk_bytes file off n in
            let len = length chunk in
            let rest = window (off + len) (n + len) in
            let split : window off n ≡ chunk ++ rest =
              window_split off n k chunk chunk_eq size within in
            rw (more, size, read_chunks)
              (ap (read_chunks p max_bytes chunk_bytes file fuel (off + len) (n + len))
                  (commit_chunk p chunk s plain)
                ∙ read_chunks-feeds fuel (off + len) (n + len) (feeds p chunk s) reads pos
                    (omega arith) (feeds-IsPlain p chunk s plain)
                ∙ sym (foldl-append (feed p) s chunk rest)
                ∙ ap (λ bs. feeds p bs s) (sym split))
        | inr done ↦
            let empty : window off n ≡ [] = window_empty off n done in
            rw (done, read_chunks) (ap (λ bs. feeds p bs s) (sym empty))
      ]
