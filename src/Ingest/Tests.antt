-- ===== src/Ingest/Tests.antt =====
-- Runs of the reader and of the synchronizer, and the theorems at concrete logs.
use agent_metrics.Prelude.{
  ℕ, zero, suc, ◌+◌, ◌≡◌, ◌≢◌, ◌<◌, refl, Bool, true, false, ◌==◌, Option, none, some, List, [],
  ◌∷◌, ◌++◌, ◌⊎◌, length, take, drop, arith, leb, if◌then◌else◌, length-append,
}
use agent_metrics.Sync.Utils.{whole}
use agent_metrics.Ingest.Files.{Platform, EventFile, decode_line}
use agent_metrics.Ingest.Reader.{
  EventLogReadResult, newline, index_of, default_read_chunk_bytes, start_of,
}
use agent_metrics.Ingest.Feeding.{IsPlain}
use agent_metrics.Ingest.Chunks.{ReadsSome}
use agent_metrics.Ingest.Tiling.{joined, AllPlain, numbered}
use agent_metrics.Ingest.Window.{
  IsAllowed, read_with, window, with_reads, records_tile_window, chunks_are_invisible,
}
use agent_metrics.Ingest.Appending.{appended}
use agent_metrics.Ingest.Growth.{resume_after_append}
use agent_metrics.Ingest.Projector.{
  Normalizer, normalized, rejected, Database, EventLogSignature, ingest_event_log,
}
use agent_metrics.Ingest.Accounting.{events_of, accepted_of, reported_of}
use agent_metrics.Ingest.Ingesting.{ingest_accounts_for_lines}
use agent_metrics.Ingest.Synchronizer.{synchronize, is_same_event_log_signature}
use agent_metrics.Ingest.Draining.{HasShortLines}
use agent_metrics.Ingest.Progress.{ingest_progress}
use agent_metrics.Ingest.Catching.{synchronizer_catches_up}

-- Every read returns one byte; a line is JSON if it begins with a brace.
abbrev platform : Platform
platform = record {
  sha_bytes = λ bytes. "bytes";
  sha_text = λ text. text;
  sha_line = λ line. "line";
  identity_json = λ path created head. path;
  read_count = λ offset n. 1;
  utf8 = λ bytes. bytes;
  json_error =
      λ line. elim line [ [] ↦ some "end" | c ∷ cs ↦ if c == b'{' then none else some "token" ];
}

-- A line, a broken line that ends with a carriage return, and the beginning of a third.
abbrev log_file : EventFile
log_file = record {
  canonical_path = "/events";
  creation_time = none;
  bytes = b'{' ∷ 10 ∷ b'x' ∷ 13 ∷ 10 ∷ b'{' ∷ [];
}

platform-reads : ReadsSome platform
platform-reads offset n h = omega arith

log-IsAllowed : IsAllowed log_file 5 2
log-IsAllowed = omega arith

records_tile_window_example :
    (r : EventLogReadResult) × (read_with platform log_file none 5 2 ≡ some r)
    × ((raws : List (List ℕ)) × ((rest : List ℕ) × (take 5 (drop r.start_offset log_file.bytes)
            ≡ joined raws ++ rest)
          × AllPlain raws
          × IsPlain rest
          × (r.records ≡ numbered platform r.start_offset raws)
          × (r.next_offset ≡ r.start_offset + length (joined raws))
          × (r.next_cursor.committed_offset ≡ r.next_offset)
          × (r.trailing_line ≡ decode_line platform rest false)))
records_tile_window_example =
    records_tile_window platform log_file none 5 2 platform-reads log-IsAllowed

abbrev two_bytes : ℕ → ℕ → ℕ
two_bytes offset n = 2

two_bytes-reads : ReadsSome (with_reads platform two_bytes)
two_bytes-reads offset n h = omega arith

chunks_are_invisible_example :
    read_with (with_reads platform two_bytes) log_file none 5 3
    ≡ read_with platform log_file none 5 2
chunks_are_invisible_example =
    chunks_are_invisible platform log_file none 5 2 3 two_bytes platform-reads two_bytes-reads
      log-IsAllowed (omega arith)

-- So many letters.
filler : ℕ → List ℕ
filler zero = []
filler (suc n) = b'a' ∷ filler n

length-filler : (n : ℕ) → length (filler n) ≡ n
unfolding filler
length-filler zero = refl
length-filler (suc n) = omega (arith, length-filler n)

abbrev large_file : EventFile
large_file = record {
  canonical_path = "/events";
  creation_time = none;
  bytes = b'{' ∷ 10 ∷ filler 4096;
}

abbrev more : List ℕ
more = 10 ∷ []

length-grown : length (large_file.bytes ++ more) ≡ 4099
length-grown = omega (arith, length-filler 4096, length-append (filler 4096) more)

large-IsAllowed : IsAllowed large_file 4096 64
large-IsAllowed = omega (arith, length-filler 4096)

grown-IsAllowed : IsAllowed (appended large_file more) 5000 64
grown-IsAllowed = omega (arith, length-grown)

resume_after_append_example :
    (first : EventLogReadResult) × ((second : EventLogReadResult) × ((all : EventLogReadResult)
        × (read_with platform large_file none 4096 64 ≡ some first)
        × (read_with platform (appended large_file more) (some first.next_cursor) 5000 64
            ≡ some second)
        × (read_with platform (appended large_file more) none 5000 64 ≡ some all)
        × (second.reset ≡ false)
        × (second.start_offset ≡ first.next_offset)
        × (all.lines ≡ first.lines ++ second.lines)
        × (all.records ≡ first.records ++ second.records)
        × (all.valid_lines ≡ first.valid_lines ++ second.valid_lines)
        × (all.malformed_lines ≡ first.malformed_lines ++ second.malformed_lines)
        × (all.next_cursor ≡ second.next_cursor)
        × (all.trailing_line ≡ second.trailing_line)))
resume_after_append_example =
    resume_after_append platform large_file more 4096 64 5000 platform-reads
      (omega (arith, length-filler 4096)) (omega (arith, length-grown)) large-IsAllowed
      grown-IsAllowed

-- Values are lines, events their lengths; only short ones are accepted.
abbrev normalizer : Normalizer (List ℕ) ℕ ℕ
normalizer = record {
  json_value = λ line. line;
  parse_event = λ value. some (length value);
  vendor_of = λ value. none;
  source_vendor = λ event. "codex";
  event_id = λ event. "event";
  normalize =
      λ value event offset. if leb event 1 then normalized event else rejected "LONG" "too long";
}

abbrev nothing_stored : Database ℕ ℕ
nothing_stored = record {
  legacy_events = [];
  projected_events = [];
  diagnostics = [];
  cursor = none;
  signature = none;
}

abbrev log_signature : EventLogSignature
log_signature = record { mtime_ms = 7; size = 6 }

log-default : IsAllowed log_file 5 default_read_chunk_bytes
log-default = omega arith

ingest_accounts_for_lines_example :
    (r : EventLogReadResult) × ((at_end : Bool) × ((after : Database ℕ ℕ) × (read_with platform
            log_file none 5 default_read_chunk_bytes
          ≡ some r)
        × (ingest_event_log platform normalizer
              (some (whole 5))
              (some log_signature)
              (some log_file)
              nothing_stored
            ≡ some (at_end, after))
        × (after.cursor ≡ some r.next_cursor)
        × (after.legacy_events ≡ [] ++ events_of platform normalizer r.records)
        × (after.projected_events ≡ [] ++ accepted_of platform normalizer r.records)
        × (after.diagnostics ≡ [] ++ reported_of platform normalizer r.records)
        × (length (accepted_of platform normalizer r.records)
              + length (reported_of platform normalizer r.records)
            ≡ length r.records)))
ingest_accounts_for_lines_example =
    ingest_accounts_for_lines platform normalizer 5 log_file log_signature nothing_stored
      platform-reads log-default

ingest_progress_example :
    (at_end : Bool) × ((after : Database ℕ ℕ) × (ingest_event_log platform normalizer
          (some (whole 5))
          (some log_signature)
          (some log_file)
          nothing_stored
        ≡ some (at_end, after))
      × (((index_of newline (window platform log_file none 5) ≢ none)
            × (start_of platform none log_file < start_of platform after.cursor log_file)
            × (at_end ≡ leb 6 (start_of platform after.cursor log_file)))
          ⊎ ((index_of newline (window platform log_file none 5) ≡ none)
              × (start_of platform after.cursor log_file ≡ start_of platform none log_file)
              × (at_end ≡ true))))
ingest_progress_example =
    ingest_progress platform normalizer 5 log_file log_signature nothing_stored platform-reads
      log-default

log-HasShortLines : HasShortLines log_file 6
log-HasShortLines offset count inside plain = omega arith

log-seven : IsAllowed log_file 7 default_read_chunk_bytes
log-seven = omega arith

abbrev older : Option EventLogSignature
older = some (record { mtime_ms = 3; size = 2 })

differs : is_same_event_log_signature (some log_signature) older ≡ false
unfolding is_same_event_log_signature
differs = refl

synchronizer_catches_up_example :
    (after : Database ℕ ℕ) × (synchronize
        (ingest_event_log platform normalizer (some (whole 7)) (some log_signature) (some log_file))
        (some log_signature)
        (older, nothing_stored)
      ≡ (some log_signature, after))
    × IsPlain (drop (start_of platform after.cursor log_file) log_file.bytes)
synchronizer_catches_up_example =
    synchronizer_catches_up platform normalizer 7 6 log_file log_signature older nothing_stored
      platform-reads log-seven refl log-HasShortLines (omega arith) (omega arith) differs
