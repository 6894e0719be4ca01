-- ===== src/Ingest/Tiling.antt =====
-- What the reader finds: complete lines and a rest, without a gap.
use agent_metrics.Prelude.{
  ℕ, ◌+◌, ◌≡◌, refl, true, false, ◌==◌, List, [], ◌∷◌, ◌++◌, length, arith, inl, inr, Bool-cases,
  append_assoc, append-nil, ap, sym, subst, ◌∙◌, length-append,
}
use agent_metrics.Ingest.Files.{Platform, decode_line}
use agent_metrics.Ingest.Reader.{Reader, EventLogLineRecord, newline, commit_raw, add_chunk}
use agent_metrics.Ingest.Feeding.{IsPlain, IsPlain-nil, feed, feeds, feed-newline, IsPlain-snoc}

-- The bytes of lines, each with its newline.
abbrev pub joined : List (List ℕ) → List ℕ
joined [] = []
joined (raw ∷ raws) = raw ++ newline ∷ joined raws

abbrev pub AllPlain : List (List ℕ) → Type 0
AllPlain [] = Unit {0}
AllPlain (raw ∷ raws) = IsPlain raw × AllPlain raws

-- The record of each line, the first of which begins at the offset.
abbrev pub numbered : Platform → ℕ → List (List ℕ) → List EventLogLineRecord
numbered p offset [] = []
numbered p offset (raw ∷ raws) =
    record {
      line = decode_line p raw true;
      offset_bytes = offset;
      end_offset_bytes = offset + length raw + 1;
    }
    ∷ numbered p (offset + length raw + 1) raws

-- From one reader to another the bytes given, after the pending ones, are lines and a new rest.
pub record Tiles (p : Platform) (s : Reader) (bs : List ℕ) (t : Reader) : Type 0 where
  pub raws : List (List ℕ)
  pub covered : s.pending ++ bs ≡ joined raws ++ t.pending
  pub closed : AllPlain raws
  pub plain : IsPlain t.pending
  pub recorded : t.records ≡ s.records ++ numbered p s.pending_start_offset raws
  pub started : t.pending_start_offset ≡ s.pending_start_offset + length (joined raws)
  pub committed : t.committed_offset ≡ t.pending_start_offset

module _ (p : Platform) where
  commit_raw-start :
      (i : ℕ) (raw : List ℕ) (s : Reader)
      → ((commit_raw p i raw [] s).pending ≡ [])
        × ((commit_raw p i raw [] s).committed_offset
            ≡ (commit_raw p i raw [] s).pending_start_offset)
  unfolding commit_raw
  commit_raw-start i raw s = (refl, refl)

  feed-byte : (b : ℕ) (s : Reader) → (b == newline) ≡ false → feed p s b ≡ add_chunk (b ∷ []) s
  unfolding feed
  feed-byte b s differs = rw differs

  Tiles-byte :
      (b : ℕ) (bs : List ℕ) (s t : Reader)
      → Tiles p (add_chunk (b ∷ []) s) bs t
      → Tiles p s (b ∷ bs) t
  Tiles-byte b bs s t h = record {
    raws = h.raws;
    covered = sym (append_assoc s.pending (b ∷ []) bs) ∙ h.covered;
    closed = h.closed;
    plain = h.plain;
    recorded = h.recorded;
    started = h.started;
    committed = h.committed;
  }

  Tiles-line :
      (bs : List ℕ) (s t : Reader)
      → IsPlain s.pending
      → Tiles p (commit_raw p (length s.pending) s.pending [] s) bs t
      → Tiles p s (newline ∷ bs) t
  unfolding commit_raw
  Tiles-line bs s t plain h =
      let line = s.pending ++ newline ∷ [] in
      record {
        raws = s.pending ∷ h.raws;
        covered =
            ap (λ l. s.pending ++ newline ∷ l) h.covered
            ∙ sym (append_assoc s.pending (newline ∷ joined h.raws) t.pending);
        closed = (plain, h.closed);
        plain = h.plain;
        recorded = h.recorded ∙ append_assoc s.records _ _;
        started = omega (arith, h.started, length-append s.pending (newline ∷ joined h.raws));
        committed = h.committed;
      }

  pub feeds-Tiles :
      (bs : List ℕ) (s : Reader)
      → IsPlain s.pending
      → s.committed_offset ≡ s.pending_start_offset
      → Tiles p s bs (feeds p bs s)
  feeds-Tiles [] s plain at = record {
    raws = [];
    covered = append-nil s.pending;
    closed = tt;
    plain = plain;
    recorded = sym (append-nil s.records);
    started = omega arith;
    committed = at;
  }
  feeds-Tiles (b ∷ bs) s plain at = elim (Bool-cases (b == newline)) [
    | inl ends ↦
        let same : b ≡ newline = ground arith in
        let next = commit_raw p (length s.pending) s.pending [] s in
        let (empty, together) = commit_raw-start (length s.pending) s.pending s in
        rw (same) (
          Tiles-line bs s (feeds p bs (feed p s newline)) plain (
            rw (feed-newline p s.pending s)
              (feeds-Tiles bs next (subst IsPlain (sym empty) IsPlain-nil) together)))
    | inr differs ↦ rw (feed-byte b s differs) (
        Tiles-byte b bs s (feeds p bs (add_chunk (b ∷ []) s))
          (feeds-Tiles bs (add_chunk (b ∷ []) s) (IsPlain-snoc s.pending b plain differs) at))
  ]
