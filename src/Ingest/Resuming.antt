-- ===== src/Ingest/Resuming.antt =====
-- A read from the next cursor goes on where the last one stopped.
use agent_metrics.Prelude.{
  ℕ, ◌+◌, ◌≡◌, refl, true, ◌==◌, List, [], ◌∷◌, ◌++◌, length, arith, inl, inr, Bool-cases,
  Option-cases, append_assoc, ap, ◌∙◌,
}
use agent_metrics.Ingest.Files.{Platform, decode_line}
use agent_metrics.Ingest.Reader.{
  Reader, newline, commit_raw, EventLogLineRecord, MalformedEventLogLine,
}
use agent_metrics.Ingest.Feeding.{feed, feeds, feed-newline}

-- Two readers at the same place, of which the first has read what `pre` has before that.
pub record Ahead (pre s t : Reader) : Type 0 where
  pub lines : s.lines ≡ pre.lines ++ t.lines
  pub records : s.records ≡ pre.records ++ t.records
  pub valid_lines : s.valid_lines ≡ pre.valid_lines ++ t.valid_lines
  pub malformed_lines : s.malformed_lines ≡ pre.malformed_lines ++ t.malformed_lines
  pub pending : s.pending ≡ t.pending
  pub started : s.pending_start_offset ≡ t.pending_start_offset
  pub committed : s.committed_offset ≡ t.committed_offset

snoc-ahead {ℓ} :
    {A : Type ℓ} (xs pre ys : List A) (x : A)
    → xs ≡ pre ++ ys
    → xs ++ x ∷ [] ≡ pre ++ (ys ++ x ∷ [])
snoc-ahead xs pre ys x h = rw (h) (append_assoc pre ys (x ∷ []))

module _ (p : Platform) (pre : Reader) where
  commit_raw-Ahead :
      (i : ℕ) (raw : List ℕ) (s t : Reader)
      → Ahead pre s t
      → Ahead pre (commit_raw p i raw [] s) (commit_raw p i raw [] t)
  unfolding commit_raw
  commit_raw-Ahead i raw s t h =
      let line = decode_line p raw true in
      let at : EventLogLineRecord = record {
        line = line;
        offset_bytes = t.pending_start_offset;
        end_offset_bytes = t.pending_start_offset + i + 1;
      } in
      let recorded = snoc-ahead s.records pre.records t.records at h.records in
      let listed = snoc-ahead s.lines pre.lines t.lines line h.lines in
      elim (Option-cases (p.json_error line)) [
        | inl valid ↦ record {
          lines = listed;
          records = rw (h.started) recorded;
          valid_lines =
              rw (valid)
                (snoc-ahead s.valid_lines pre.valid_lines t.valid_lines line h.valid_lines);
          malformed_lines = rw (valid) h.malformed_lines;
          pending = refl;
          started = rw h.started;
          committed = rw h.started;
        }
        | inr (message, wrong) ↦
            let bad : MalformedEventLogLine = record {
              line = line;
              offset_bytes = t.pending_start_offset;
              end_offset_bytes = t.pending_start_offset + i + 1;
              message = message;
            } in
            record {
              lines = listed;
              records = rw (h.started) recorded;
              valid_lines = rw (wrong) h.valid_lines;
              malformed_lines =
                  rw (wrong, h.started)
                    (snoc-ahead s.malformed_lines pre.malformed_lines t.malformed_lines bad
                      h.malformed_lines);
              pending = refl;
              started = rw h.started;
              committed = rw h.started;
            }
      ]

  feed-Ahead : (b : ℕ) (s t : Reader) → Ahead pre s t → Ahead pre (feed p s b) (feed p t b)
  unfolding feed
  feed-Ahead b s t h = elim (Bool-cases (b == newline)) [
    | inl ends ↦
        let same : b ≡ newline = ground arith in
        let there : feed p s newline ≡ commit_raw p (length t.pending) t.pending [] s =
          feed-newline p s.pending s ∙ ap (λ raw. commit_raw p (length raw) raw [] s) h.pending in
        rw (same, there, feed-newline p t.pending t)
          (commit_raw-Ahead (length t.pending) t.pending s t h)
    | inr differs ↦ rw (differs) (record {
      lines = h.lines;
      records = h.records;
      valid_lines = h.valid_lines;
      malformed_lines = h.malformed_lines;
      pending = ap (λ l. l ++ b ∷ []) h.pending;
      started = h.started;
      committed = h.committed;
    })
  ]

  pub feeds-Ahead :
      (bs : List ℕ) (s t : Reader) → Ahead pre s t → Ahead pre (feeds p bs s) (feeds p bs t)
  feeds-Ahead [] s t h = h
  feeds-Ahead (b ∷ bs) s t h = feeds-Ahead bs (feed p s b) (feed p t b) (feed-Ahead b s t h)
