-- ===== src/Ingest/Accounting.antt =====
-- What one call of `ingestEventLog` writes.
use mathlib.Core.List.{foldl}
use agent_metrics.Prelude.{
  suc, ◌+◌, ◌≡◌, refl, String, Option, none, some, List, [], ◌∷◌, ◌++◌, length, arith, inl, inr,
  Option-cases, append_assoc, append-nil, ◌∙◌, if_cases, ◌⊎◌,
}
use agent_metrics.Ingest.Files.{Platform}
use agent_metrics.Ingest.Reader.{EventLogLineRecord, MalformedEventLogLine}
use agent_metrics.Ingest.Projector.{
  Normalizer, NormalizeResult, normalized, rejected, Batch, PendingProjectionDiagnostic,
  invalid_diagnostic, rejected_diagnostic, malformed_diagnostic, is_malformed_at, add_diagnostic,
  ingest_event, ingest_record,
}
use agent_metrics.Ingest.Malformed.{AllFound}

module _ {V E N : Type 0} (p : Platform) (n : Normalizer V E N) where
  -- The event in a line, if there is one.
  abbrev pub event_of : EventLogLineRecord → Option E
  event_of r = elim (p.json_error r.line) [
    | some message ↦ none
    | none ↦ n.parse_event (n.json_value r.line)
  ]

  -- What becomes of a line: a normalized event or a diagnostic, never both.
  pub data Verdict : Type 0 where
    accepts : N → Verdict
    reports : PendingProjectionDiagnostic → Verdict

  abbrev judge_event : EventLogLineRecord → V → E → Verdict
  judge_event r value parsed = elim (n.normalize value parsed r.offset_bytes) [
    | normalized event ↦ accepts event
    | rejected code message ↦ reports (rejected_diagnostic p n r parsed code message)
  ]

  abbrev pub judge : EventLogLineRecord → Verdict
  judge r = elim (p.json_error r.line) [
    | some message ↦ reports (malformed_diagnostic p n r)
    | none ↦ elim (n.parse_event (n.json_value r.line)) [
      | none ↦ reports (invalid_diagnostic p n r (n.json_value r.line))
      | some parsed ↦ judge_event r (n.json_value r.line) parsed
    ]
  ]

  abbrev pub add_event : Option E → List E → List E
  add_event none es = es
  add_event (some e) es = e ∷ es

  abbrev pub add_accepted : Verdict → List N → List N
  add_accepted (accepts event) ns = event ∷ ns
  add_accepted (reports d) ns = ns

  abbrev pub add_reported :
      Verdict → List PendingProjectionDiagnostic → List PendingProjectionDiagnostic
  add_reported (accepts event) ds = ds
  add_reported (reports d) ds = d ∷ ds

  abbrev pub events_of : List EventLogLineRecord → List E
  events_of [] = []
  events_of (r ∷ rs) = add_event (event_of r) (events_of rs)

  abbrev pub accepted_of : List EventLogLineRecord → List N
  accepted_of [] = []
  accepted_of (r ∷ rs) = add_accepted (judge r) (accepted_of rs)

  abbrev pub reported_of : List EventLogLineRecord → List PendingProjectionDiagnostic
  reported_of [] = []
  reported_of (r ∷ rs) = add_reported (judge r) (reported_of rs)

  abbrev pub extended : Batch E N → List EventLogLineRecord → Batch E N
  extended b rs = record {
    parsed_events = b.parsed_events ++ events_of rs;
    normalized_events = b.normalized_events ++ accepted_of rs;
    diagnostics = b.diagnostics ++ reported_of rs;
  }

  -- A line adds an event, if it has one, and its verdict.
  abbrev grown : Batch E N → Option E → Verdict → Batch E N
  grown b o v = record {
    parsed_events = b.parsed_events ++ add_event o [];
    normalized_events = b.normalized_events ++ add_accepted v [];
    diagnostics = b.diagnostics ++ add_reported v [];
  }

  grown-report :
      (b : Batch E N) (d : PendingProjectionDiagnostic)
      → grown b none (reports d) ≡ add_diagnostic p n d b
  grown-report b d = rw (append-nil b.parsed_events, append-nil b.normalized_events)

  normalize-cases :
      (o : NormalizeResult N)
      → ((event : N) × (o ≡ normalized event))
        ⊎ ((code : String) × ((message : String) × (o ≡ rejected code message)))
  normalize-cases (normalized event) = inl (event, refl)
  normalize-cases (rejected code message) = inr (code, (message, refl))

  ingest_event-grown :
      (b : Batch E N) (r : EventLogLineRecord) (parsed : E)
      → ingest_event p n r (n.json_value r.line) parsed b
        ≡ grown b (some parsed) (judge_event r (n.json_value r.line) parsed)
  unfolding ingest_event
  ingest_event-grown b r parsed =
      elim (normalize-cases (n.normalize (n.json_value r.line) parsed r.offset_bytes)) [
        | inl (event, good) ↦
            let verdict : judge_event r (n.json_value r.line) parsed ≡ accepts event =
              rw (good, judge_event) in
            rw (verdict) (rw (good, ingest_event, append-nil b.diagnostics))
        | inr (code, (message, bad)) ↦
            let verdict : judge_event r (n.json_value r.line) parsed
                ≡ reports (rejected_diagnostic p n r parsed code message) =
              rw (bad, judge_event) in
            rw (verdict) (rw (bad, ingest_event, append-nil b.normalized_events))
      ]

  ingest_record-grown :
      (ms : List MalformedEventLogLine) (b : Batch E N) (r : EventLogLineRecord)
      (rs : List EventLogLineRecord)
      → AllFound p ms (r ∷ rs)
      → ingest_record p n ms b r ≡ grown b (event_of r) (judge r)
  unfolding ingest_record
  ingest_record-grown ms b r rs h = elim (Option-cases (p.json_error r.line)) [
    | inr (message, wrong) ↦
        let no_event : event_of r ≡ none = rw (wrong, event_of) in
        let verdict : judge r ≡ reports (malformed_diagnostic p n r) = rw (wrong, judge) in
        rw (no_event, verdict, grown-report b (malformed_diagnostic p n r), wrong)
          (if_cases (λ t. t ≡ add_diagnostic p n (malformed_diagnostic p n r) b)
            (is_malformed_at r.offset_bytes ms) (λ _. refl) (λ _. refl))
    | inl valid ↦ elim (Option-cases (n.parse_event (n.json_value r.line))) [
      | inl invalid ↦
          let d = invalid_diagnostic p n r (n.json_value r.line) in
          let no_event : event_of r ≡ none = rw (valid, event_of) invalid in
          let verdict : judge r ≡ reports d = rw (valid, judge) (rw invalid) in
          rw (no_event, verdict, grown-report b d, valid, h.0 valid, invalid) refl
      | inr (parsed, found) ↦
          let has_event : event_of r ≡ some parsed = rw (valid, event_of) found in
          let verdict : judge r ≡ judge_event r (n.json_value r.line) parsed =
            rw (valid, judge) (rw found) in
          rw (has_event, verdict, valid, h.0 valid, found) (ingest_event-grown b r parsed)
    ]
  ]

  event-append : (o : Option E) (es : List E) → add_event o es ≡ add_event o [] ++ es
  event-append none es = refl
  event-append (some e) es = refl

  accepted-append : (v : Verdict) (ns : List N) → add_accepted v ns ≡ add_accepted v [] ++ ns
  accepted-append (accepts event) ns = refl
  accepted-append (reports d) ns = refl

  reported-append :
      (v : Verdict) (ds : List PendingProjectionDiagnostic)
      → add_reported v ds ≡ add_reported v [] ++ ds
  reported-append (accepts event) ds = refl
  reported-append (reports d) ds = refl

  grown-extended :
      (b : Batch E N) (r : EventLogLineRecord) (rs : List EventLogLineRecord)
      → extended (grown b (event_of r) (judge r)) rs ≡ extended b (r ∷ rs)
  grown-extended b r rs =
      rw
        (
          event-append (event_of r) (events_of rs),
          accepted-append (judge r) (accepted_of rs),
          reported-append (judge r) (reported_of rs),
        )
        (simp append_assoc)

  -- The whole loop.
  pub loop-extended :
      (ms : List MalformedEventLogLine) (rs : List EventLogLineRecord) (b : Batch E N)
      → AllFound p ms rs
      → foldl (ingest_record p n ms) b rs ≡ extended b rs
  loop-extended ms [] b h = simp append-nil
  loop-extended ms (r ∷ rs) b h =
      rw (ingest_record-grown ms b r rs h)
        (loop-extended ms rs (grown b (event_of r) (judge r)) h.1 ∙ grown-extended b r rs)

  verdict-length :
      (v : Verdict) (ns : List N) (ds : List PendingProjectionDiagnostic)
      → length (add_accepted v ns) + length (add_reported v ds) ≡ suc (length ns + length ds)
  verdict-length (accepts event) ns ds = omega arith
  verdict-length (reports d) ns ds = omega arith

  -- Every line is judged once.
  pub judged-length :
      (rs : List EventLogLineRecord) → length (accepted_of rs) + length (reported_of rs) ≡ length rs
  judged-length [] = refl
  judged-length (r ∷ rs) =
      omega (arith, judged-length rs, verdict-length (judge r) (accepted_of rs) (reported_of rs))
