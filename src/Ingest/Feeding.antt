-- ===== src/Ingest/Feeding.antt =====
-- The reader in chunks does what a reader byte by byte does.
use mathlib.Core.List.{foldl, foldl-append}
use agent_metrics.Prelude.{
  ℕ, zero, suc, ◌+◌, ◌≡◌, ◌<◌, refl, false, ◌==◌, none, some, List, [], ◌∷◌, ◌++◌, length, take,
  drop, if◌then◌else◌, arith, inl, inr, Option-cases, Bool-cases, append_assoc, append-nil, ap, sym,
  subst, ◌∙◌,
}
use agent_metrics.Ingest.Files.{Platform}
use agent_metrics.Ingest.Reader.{
  Reader, index_of, newline, commit_line, commit_raw, commit_lines, add_chunk,
}

-- No newline in it.
abbrev pub IsPlain : List ℕ → Type 0
IsPlain bs = index_of newline bs ≡ none

pub IsPlain-nil : IsPlain []
unfolding index_of
IsPlain-nil = refl

-- The newline ends the pending line; any other byte belongs to it.
unfoldable pub feed : Platform → Reader → ℕ → Reader
feed p s b =
    let grown = add_chunk (b ∷ []) s in
    if b == newline then commit_line p (length s.pending) grown else grown

abbrev pub feeds : Platform → List ℕ → Reader → Reader
feeds p bs s = foldl (feed p) s bs

pub IsPlain-head : (b : ℕ) (bs : List ℕ) → IsPlain (b ∷ bs) → ((b == newline) ≡ false) × IsPlain bs
unfolding index_of
IsPlain-head b bs h = elim (Option-cases (index_of newline bs)) [
  | inl e ↦ (ground arith, e)
  | inr (i, e) ↦ (ground arith, ground arith)
]

pub IsPlain-cons : (b : ℕ) (bs : List ℕ) → (b == newline) ≡ false → IsPlain bs → IsPlain (b ∷ bs)
unfolding index_of
IsPlain-cons b bs n h = rw (n, h)

-- A list up to the first newline, and after it.
pub split_at :
    (bs : List ℕ) (i : ℕ)
    → index_of newline bs ≡ some i
    → (bs ≡ take i bs ++ newline ∷ drop (suc i) bs)
      × IsPlain (take i bs)
      × (length (take i bs) ≡ i)
      × (length (drop (suc i) bs) < length bs)
unfolding index_of
split_at [] i e = cc
split_at (b ∷ bs) i e = elim (Bool-cases (b == newline)) [
  | inl here ↦
      let zeroth : i ≡ 0 = ground arith in
      let same : b ≡ newline = ground arith in rw (zeroth, same) (refl, refl, refl, omega arith)
  | inr past ↦ elim (Option-cases (index_of newline bs)) [
    | inl missing ↦ ground arith
    | inr (j, found) ↦
        let after : i ≡ suc j = ground arith in
        let (whole, plain, count, less) = split_at bs j found in
        rw after
          (ap (λ t. b ∷ t) whole, IsPlain-cons b (take j bs) past plain, omega arith, omega arith)
  ]
]

pub IsPlain-snoc :
    (bs : List ℕ) (b : ℕ) → IsPlain bs → (b == newline) ≡ false → IsPlain (bs ++ b ∷ [])
unfolding index_of
IsPlain-snoc [] b h n = ground arith
IsPlain-snoc (c ∷ bs) b h n =
    let (other, rest) = IsPlain-head c bs h in
    IsPlain-cons c (bs ++ b ∷ []) other (IsPlain-snoc bs b rest n)

pub take-append : (xs ys : List ℕ) → take (length xs) (xs ++ ys) ≡ xs
take-append [] ys = refl
take-append (x ∷ xs) ys = ap (λ t. x ∷ t) (take-append xs ys)

drop-append : (xs : List ℕ) (y : ℕ) (ys : List ℕ) → drop (suc (length xs)) (xs ++ y ∷ ys) ≡ ys
drop-append [] y ys = refl
drop-append (x ∷ xs) y ys = drop-append xs y ys

module _ (p : Platform) where
  -- Bytes without a newline join the pending line.
  pub feeds-plain :
      (bs : List ℕ) (s : Reader)
      → IsPlain bs
      → feeds p bs s ≡ record s { pending = s.pending ++ bs }
  unfolding feed
  feeds-plain [] s h = rw append-nil
  feeds-plain (b ∷ bs) s h =
      let (other, rest) = IsPlain-head b bs h in
      rw (other) (feeds-plain bs (add_chunk (b ∷ []) s) rest ∙ rw append_assoc)

  -- What is pending is replaced.
  commit_raw-pending :
      (i : ℕ) (raw rest bs : List ℕ) (s : Reader)
      → commit_raw p i raw rest (record s { pending = bs }) ≡ commit_raw p i raw rest s
  unfolding commit_raw
  commit_raw-pending i raw rest bs s = refl

  commit_raw-rest :
      (i : ℕ) (raw rest : List ℕ) (s : Reader)
      → ((commit_raw p i raw rest s).pending ≡ rest)
        × (record (commit_raw p i raw rest s) { pending = [] } ≡ commit_raw p i raw [] s)
  unfolding commit_raw
  commit_raw-rest i raw rest s = (refl, refl)

  pub feed-newline :
      (raw : List ℕ) (s : Reader)
      → feed p (record s { pending = raw }) newline ≡ commit_raw p (length raw) raw [] s
  unfolding feed commit_line
  feed-newline raw s =
      rw (take-append raw (newline ∷ []), drop-append raw newline [])
        (commit_raw-pending (length raw) raw [] (raw ++ newline ∷ []) s)

  -- A line and its newline are committed.
  feeds-line :
      (raw rest : List ℕ) (s : Reader)
      → IsPlain raw
      → feeds p (raw ++ newline ∷ rest) (record s { pending = [] })
        ≡ feeds p rest (commit_raw p (length raw) raw [] s)
  feeds-line raw rest s plain =
      foldl-append (feed p) (record s { pending = [] }) raw (newline ∷ rest)
      ∙ ap (feeds p (newline ∷ rest)) (feeds-plain raw (record s { pending = [] }) plain)
      ∙ ap (feeds p rest) (feed-newline raw s)

  -- The inner loop reads what is pending.
  commit_lines-feeds :
      (fuel : ℕ) (s : Reader)
      → length s.pending < fuel
      → commit_lines p fuel s ≡ feeds p s.pending (record s { pending = [] })
  unfolding commit_lines commit_line
  commit_lines-feeds zero s h = absurd (omega arith)
  commit_lines-feeds (suc fuel) s h = elim (Option-cases (index_of newline s.pending)) [
    | inl plain ↦
        rw (plain, commit_lines) (sym (feeds-plain s.pending (record s { pending = [] }) plain))
    | inr (i, found) ↦
        let (whole, plain, count, less) = split_at s.pending i found in
        let raw = take i s.pending in
        let rest = drop (suc i) s.pending in
        let next = commit_raw p i raw rest s in
        let (left, cleared) = commit_raw-rest i raw rest s in
        let shorter : length next.pending < fuel = rw (left) (omega arith) in
        let same : commit_raw p (length raw) raw [] s ≡ commit_raw p i raw [] s =
          ap (λ n. commit_raw p n raw [] s) count in
        rw (found, commit_lines)
          (commit_lines-feeds fuel next shorter
            ∙ ap (λ bs. feeds p bs (record next { pending = [] })) left
            ∙ ap (feeds p rest) (cleared ∙ sym same)
            ∙ sym (feeds-line raw rest s plain)
            ∙ ap (λ bs. feeds p bs (record s { pending = [] })) (sym whole))
  ]

  -- A chunk after what is pending.
  pub commit_chunk :
      (chunk : List ℕ) (s : Reader)
      → IsPlain s.pending
      → commit_lines p (length (add_chunk chunk s).pending + 1) (add_chunk chunk s)
        ≡ feeds p chunk s
  commit_chunk chunk s plain =
      commit_lines-feeds (length (s.pending ++ chunk) + 1) (add_chunk chunk s) (omega arith)
      ∙ foldl-append (feed p) (record s { pending = [] }) s.pending chunk
      ∙ ap (feeds p chunk) (feeds-plain s.pending (record s { pending = [] }) plain)

  -- No newline is pending after any bytes.
  pub feed-IsPlain : (b : ℕ) (s : Reader) → IsPlain s.pending → IsPlain (feed p s b).pending
  unfolding feed
  feed-IsPlain b s plain = elim (Bool-cases (b == newline)) [
    | inl ends ↦
        let same : b ≡ newline = ground arith in
        let cleared : (feed p s newline).pending ≡ [] =
          ap (λ t. t.pending) (feed-newline s.pending s)
          ∙ (commit_raw-rest (length s.pending) s.pending [] s).0 in
        rw (same) (subst IsPlain (sym cleared) IsPlain-nil)
    | inr other ↦ rw (other) (IsPlain-snoc s.pending b plain other)
  ]

  pub feeds-IsPlain :
      (bs : List ℕ) (s : Reader) → IsPlain s.pending → IsPlain (feeds p bs s).pending
  feeds-IsPlain [] s plain = plain
  feeds-IsPlain (b ∷ bs) s plain = feeds-IsPlain bs (feed p s b) (feed-IsPlain b s plain)
