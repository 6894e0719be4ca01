-- ===== src/Ingest/Malformed.antt =====
-- The lines that the reader calls malformed are found again by their offsets.
use agent_metrics.Prelude.{
  ℕ, ◌+◌, ◌≡◌, ◌≤◌, ◌<◌, refl, true, false, ◌==◌, none, some, List, [], ◌∷◌, ◌++◌, length, arith,
  inl, inr, Bool-cases, Option-cases, append_assoc, append-nil, ap, sym, subst, String, ◌∙◌,
}
use agent_metrics.Ingest.Files.{Platform, decode_line}
use agent_metrics.Ingest.Reader.{
  Reader, EventLogLineRecord, MalformedEventLogLine, newline, commit_raw, commit_line, add_chunk,
}
use agent_metrics.Ingest.Feeding.{feed, feeds}
use agent_metrics.Ingest.Tiling.{numbered}
use agent_metrics.Ingest.Projector.{is_malformed_at}

module _ (p : Platform) where
  -- The entries for the records whose line is no JSON.
  abbrev pub malformed_of : List EventLogLineRecord → List MalformedEventLogLine
  malformed_of [] = []
  malformed_of (r ∷ rs) = elim (p.json_error r.line) [
    | none ↦ malformed_of rs
    | some message ↦
        record {
          line = r.line;
          offset_bytes = r.offset_bytes;
          end_offset_bytes = r.end_offset_bytes;
          message = message;
        }
        ∷ malformed_of rs
  ]

  abbrev entry : EventLogLineRecord → String → MalformedEventLogLine
  entry r message = record {
    line = r.line;
    offset_bytes = r.offset_bytes;
    end_offset_bytes = r.end_offset_bytes;
    message = message;
  }

  malformed_of-valid :
      (r : EventLogLineRecord) (rs : List EventLogLineRecord)
      → p.json_error r.line ≡ none
      → malformed_of (r ∷ rs) ≡ malformed_of rs
  malformed_of-valid r rs valid = rw (valid, malformed_of)

  malformed_of-wrong :
      (r : EventLogLineRecord) (rs : List EventLogLineRecord) (message : String)
      → p.json_error r.line ≡ some message
      → malformed_of (r ∷ rs) ≡ entry r message ∷ malformed_of rs
  malformed_of-wrong r rs message wrong = rw (wrong, malformed_of)

  malformed_of-append :
      (xs ys : List EventLogLineRecord)
      → malformed_of (xs ++ ys) ≡ malformed_of xs ++ malformed_of ys
  malformed_of-append [] ys = refl
  malformed_of-append (r ∷ xs) ys = elim (Option-cases (p.json_error r.line)) [
    | inl valid ↦
        malformed_of-valid r (xs ++ ys) valid
        ∙ malformed_of-append xs ys
        ∙ ap (λ l. l ++ malformed_of ys) (sym (malformed_of-valid r xs valid))
    | inr (message, wrong) ↦
        malformed_of-wrong r (xs ++ ys) message wrong
        ∙ ap (λ l. entry r message ∷ l) (malformed_of-append xs ys)
        ∙ ap (λ l. l ++ malformed_of ys) (sym (malformed_of-wrong r xs message wrong))
  ]

  -- The reader's malformed lines are those of its records.
  abbrev pub IsSorted : Reader → Type 0
  IsSorted s = s.malformed_lines ≡ malformed_of s.records

  commit_raw-IsSorted :
      (i : ℕ) (raw rest : List ℕ) (s : Reader) → IsSorted s → IsSorted (commit_raw p i raw rest s)
  unfolding commit_raw
  commit_raw-IsSorted i raw rest s h =
      let r : EventLogLineRecord = record {
        line = decode_line p raw true;
        offset_bytes = s.pending_start_offset;
        end_offset_bytes = s.pending_start_offset + i + 1;
      } in
      let split = malformed_of-append s.records (r ∷ []) in
      elim (Option-cases (p.json_error (decode_line p raw true))) [
        | inl valid ↦ rw (valid) (
            h
            ∙ sym (append-nil (malformed_of s.records))
            ∙ ap (λ l. malformed_of s.records ++ l) (sym (malformed_of-valid r [] valid))
            ∙ sym split)
        | inr (message, wrong) ↦ rw (wrong) (
            ap (λ l. l ++ entry r message ∷ []) h
            ∙ ap (λ l. malformed_of s.records ++ l) (sym (malformed_of-wrong r [] message wrong))
            ∙ sym split)
      ]

  feed-IsSorted : (b : ℕ) (s : Reader) → IsSorted s → IsSorted (feed p s b)
  unfolding feed commit_line
  feed-IsSorted b s h = elim (Bool-cases (b == newline)) [
    | inl ends ↦ rw (ends) (commit_raw-IsSorted _ _ _ (add_chunk (b ∷ []) s) h)
    | inr differs ↦ rw (differs) h
  ]

  pub feeds-IsSorted : (bs : List ℕ) (s : Reader) → IsSorted s → IsSorted (feeds p bs s)
  feeds-IsSorted [] s h = h
  feeds-IsSorted (b ∷ bs) s h = feeds-IsSorted bs (feed p s b) (feed-IsSorted b s h)

  -- A record whose line is JSON is not among the malformed lines.
  abbrev pub AllFound : List MalformedEventLogLine → List EventLogLineRecord → Type 0
  AllFound entries [] = Unit {0}
  AllFound entries (r ∷ rs) =
      (p.json_error r.line ≡ none → is_malformed_at r.offset_bytes entries ≡ false)
      × AllFound entries rs

  -- Entries before an offset, and from an offset on.
  abbrev AllBelow : ℕ → List MalformedEventLogLine → Type 0
  AllBelow offset [] = Unit {0}
  AllBelow offset (m ∷ ms) = (m.offset_bytes < offset) × AllBelow offset ms

  AllBelow-mono :
      (a b : ℕ) (ms : List MalformedEventLogLine) → a ≤ b → AllBelow a ms → AllBelow b ms
  AllBelow-mono a b [] h k = tt
  AllBelow-mono a b (m ∷ ms) h k = (omega arith, AllBelow-mono a b ms h k.1)

  AllBelow-snoc :
      (a : ℕ) (ms : List MalformedEventLogLine) (m : MalformedEventLogLine)
      → AllBelow a ms
      → m.offset_bytes < a
      → AllBelow a (ms ++ m ∷ [])
  AllBelow-snoc a [] m k h = (h, tt)
  AllBelow-snoc a (x ∷ ms) m k h = (k.0, AllBelow-snoc a ms m k.1 h)

  below-absent :
      (offset : ℕ) (ms rest : List MalformedEventLogLine)
      → AllBelow offset ms
      → is_malformed_at offset (ms ++ rest) ≡ is_malformed_at offset rest
  below-absent offset [] rest k = refl
  below-absent offset (m ∷ ms) rest k = ground (arith, below-absent offset ms rest k.1)

  above-absent :
      (offset from : ℕ) (raws : List (List ℕ))
      → offset < from
      → is_malformed_at offset (malformed_of (numbered p from raws)) ≡ false
  above-absent offset from [] h = refl
  above-absent offset from (raw ∷ raws) h =
      let rest = above-absent offset (from + length raw + 1) raws (omega arith) in
      elim (Option-cases (p.json_error (decode_line p raw true))) [
        | inl valid ↦ rw (valid) rest
        | inr (message, wrong) ↦ rw (wrong) (ground (arith))
      ]

  pub numbered-AllFound :
      (pre : List MalformedEventLogLine) (offset : ℕ) (raws : List (List ℕ))
      → AllBelow offset pre
      → AllFound (pre ++ malformed_of (numbered p offset raws)) (numbered p offset raws)
  numbered-AllFound pre offset [] k = tt
  numbered-AllFound pre offset (raw ∷ raws) k =
      let next = offset + length raw + 1 in
      let r : EventLogLineRecord = record {
        line = decode_line p raw true;
        offset_bytes = offset;
        end_offset_bytes = next;
      } in
      let rs = numbered p next raws in
      let below = AllBelow-mono offset next pre (omega arith) k in
      elim (Option-cases (p.json_error (decode_line p raw true))) [
        | inl valid ↦
            subst (λ l. AllFound (pre ++ l) (r ∷ rs)) (sym (malformed_of-valid r rs valid))
              (
                λ _.
                    below-absent offset pre (malformed_of rs) k
                    ∙ above-absent offset next raws (omega arith),
                numbered-AllFound pre next raws below,
              )
        | inr (message, wrong) ↦
            let here = entry r message in
            subst (λ l. AllFound (pre ++ l) (r ∷ rs)) (sym (malformed_of-wrong r rs message wrong))
              (
                λ valid. cc,
                subst (λ l. AllFound l rs) (append_assoc pre (here ∷ []) (malformed_of rs))
                    (numbered-AllFound (pre ++ here ∷ []) next raws
                      (AllBelow-snoc next pre here below (omega arith))),
              )
      ]
