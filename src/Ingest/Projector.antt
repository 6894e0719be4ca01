-- ===== src/Ingest/Projector.antt =====
-- apps/core/src/event-log-projector.ts: one chunk of the log goes into the database with the cursor
-- behind it, and the synchronizer repeats this. The database is what was written to it; the schema
-- of events and their normalization are parameters.
use mathlib.Core.List.{foldl}
use agent_metrics.Prelude.{
  ℕ, String, Bool, true, false, ◌||◌, ◌==◌, leb, Option, none, some, List, [], ◌∷◌, ◌++◌, min,
  if◌then◌else◌,
}
use agent_metrics.Prelude.Texts.{◌=s◌}
use agent_metrics.Sync.Utils.{JsNumber, whole, is_count, count_of}
use agent_metrics.Ingest.Files.{Platform, EventFile, EventLogCursor, create_event_log_cursor}
use agent_metrics.Ingest.Reader.{
  EventLogLineRecord, MalformedEventLogLine, EventLogReadResult, read_event_log_incremental,
}

pub record EventLogSignature : Type 0 where
  pub mtime_ms : ℕ
  pub size : ℕ

pub data NormalizeResult (N : Type 0) : Type 0 where
  normalized : N → NormalizeResult N
  rejected : String → String → NormalizeResult N

-- `json_value` is the value of a line that is JSON. `parse_event` is `AnyEventSchema.parse`, `none`
-- where it throws; `vendor_of` is `parsedSourceVendor`. `normalize` is `normalizeEventV2` with the
-- options that the event and its offset give.
pub record Normalizer (V E N : Type 0) : Type 0 where
  pub json_value : List ℕ → V
  pub parse_event : V → Option E
  pub vendor_of : V → Option String
  pub source_vendor : E → String
  pub event_id : E → String
  pub normalize : V → E → ℕ → NormalizeResult N

-- The event of a diagnostic: `legacy:malformed:<offset>`, `legacy:invalid:<offset>`, or an id.
pub data DiagnosticEvent : Type 0 where
  malformed_at : ℕ → DiagnosticEvent
  invalid_at : ℕ → DiagnosticEvent
  known_event : String → DiagnosticEvent

pub record PendingProjectionDiagnostic : Type 0 where
  pub diagnostic_code : String
  pub source_instance_id : String
  pub event : DiagnosticEvent
  pub evidence_fingerprint : String
  pub summary : String
  pub locator_offset : ℕ
  pub resolver_version : String

unfoldable pub source_instance_id_for_vendor : Option String → String
source_instance_id_for_vendor none = "unknown:default"
source_instance_id_for_vendor (some vendor) =
    if vendor =s "claude-code"
    then "claude:default"
    else if vendor =s "opencode"
    then "opencode:default"
    else if vendor =s "zcode"
    then "zcode:default"
    else if vendor =s "kimicode"
    then "kimicode:default"
    else if vendor =s "dsh"
    then "dsh:default"
    else if vendor =s "codex"
    then "codex:default"
    else if vendor =s "cursor"
    then "cursor:default"
    else if vendor =s "mimo"
    then "mimo:default"
    else if vendor =s "workbuddy"
    then "workbuddy:default"
    else "unknown:default"

-- The three lists that the loop of `ingestEventLog` fills.
pub record Batch (E N : Type 0) : Type 0 where
  pub parsed_events : List E
  pub normalized_events : List N
  pub diagnostics : List PendingProjectionDiagnostic

-- What was written, in the order of the writes; the cursor that `readIncrementalCursor` makes of the
-- row of `ingestion_state`, `none` where that is not readable; and the signature of the row.
pub record Database (E N : Type 0) : Type 0 where
  pub legacy_events : List E
  pub projected_events : List N
  pub diagnostics : List PendingProjectionDiagnostic
  pub cursor : Option EventLogCursor
  pub signature : Option EventLogSignature

abbrev pub is_malformed_at : ℕ → List MalformedEventLogLine → Bool
is_malformed_at offset [] = false
is_malformed_at offset (entry ∷ entries) =
    (entry.offset_bytes == offset) || is_malformed_at offset entries

-- The offset of the row where that is a count, or the size.
abbrev stored_offset : Option JsNumber → ℕ → ℕ
stored_offset none size = size
stored_offset (some offset) size = if is_count offset then count_of offset else size

module _ {V E N : Type 0} (p : Platform) (n : Normalizer V E N) where
  abbrev pub malformed_diagnostic : EventLogLineRecord → PendingProjectionDiagnostic
  malformed_diagnostic r = record {
    diagnostic_code = "MALFORMED_JSONL";
    source_instance_id = "unknown:default";
    event = malformed_at r.offset_bytes;
    evidence_fingerprint = p.sha_line r.line;
    summary = "The event log line is not valid JSON.";
    locator_offset = r.offset_bytes;
    resolver_version = "phase3-incremental-reader";
  }

  abbrev pub invalid_diagnostic : EventLogLineRecord → V → PendingProjectionDiagnostic
  invalid_diagnostic r value = record {
    diagnostic_code = "INVALID_EVENT";
    source_instance_id = source_instance_id_for_vendor (n.vendor_of value);
    event = invalid_at r.offset_bytes;
    evidence_fingerprint = p.sha_line r.line;
    summary = "The event log record failed the legacy event schema.";
    locator_offset = r.offset_bytes;
    resolver_version = "phase3-incremental-reader";
  }

  abbrev pub rejected_diagnostic :
      EventLogLineRecord → E → String → String → PendingProjectionDiagnostic
  rejected_diagnostic r parsed code message = record {
    diagnostic_code = code;
    source_instance_id = source_instance_id_for_vendor (some (n.source_vendor parsed));
    event = known_event (n.event_id parsed);
    evidence_fingerprint = p.sha_line r.line;
    summary = message;
    locator_offset = r.offset_bytes;
    resolver_version = "phase2-normalizer";
  }

  abbrev pub add_diagnostic : PendingProjectionDiagnostic → Batch E N → Batch E N
  add_diagnostic d b = record b { diagnostics = b.diagnostics ++ d ∷ [] }

  -- A record whose line is an event.
  unfoldable pub ingest_event : EventLogLineRecord → V → E → Batch E N → Batch E N
  ingest_event r value parsed b =
      let added = record b { parsed_events = b.parsed_events ++ parsed ∷ [] } in
      elim (n.normalize value parsed r.offset_bytes) [
        | normalized event ↦ record added { normalized_events = b.normalized_events ++ event ∷ [] }
        | rejected code message ↦ add_diagnostic (rejected_diagnostic r parsed code message) added
      ]

  -- One round of the loop.
  unfoldable pub ingest_record :
      List MalformedEventLogLine → Batch E N → EventLogLineRecord → Batch E N
  ingest_record malformed_lines b r =
      if is_malformed_at r.offset_bytes malformed_lines
      then add_diagnostic (malformed_diagnostic r) b
      else elim (p.json_error r.line) [
        | some message ↦ add_diagnostic (malformed_diagnostic r) b
        | none ↦
            let value = n.json_value r.line in
            elim (n.parse_event value) [
              | none ↦ add_diagnostic (invalid_diagnostic r value) b
              | some parsed ↦ ingest_event r value parsed b
            ]
      ]

  abbrev pub no_events : Batch E N
  no_events = record { parsed_events = []; normalized_events = []; diagnostics = [] }

  -- The loop.
  abbrev pub batch_of : EventLogReadResult → Batch E N
  batch_of r = foldl (ingest_record r.malformed_lines) no_events r.records

  -- One transaction.
  unfoldable pub persist_projection_batch :
      Batch E N → EventLogCursor → EventLogSignature → Database E N → Database E N
  persist_projection_batch b cursor signature db = record {
    legacy_events = db.legacy_events ++ b.parsed_events;
    projected_events = db.projected_events ++ b.normalized_events;
    diagnostics = db.diagnostics ++ b.diagnostics;
    cursor = some cursor;
    signature = some signature;
  }

  -- The rest of the call, with the records that were read: what is written is one transaction, and
  -- the result is `atEnd`.
  unfoldable pub ingest_result :
      EventLogReadResult
      → List EventLogLineRecord
      → EventLogSignature
      → Database E N
      → Bool × Database E N
  ingest_result r [] signature db =
      (true, persist_projection_batch no_events r.next_cursor signature db)
  ingest_result r (_ ∷ _) signature db = (
    leb signature.size r.next_cursor.committed_offset,
    persist_projection_batch (batch_of r) r.next_cursor signature db,
  )

  -- With the signature and then the file that are found, `none` where there is no file. `none` is
  -- a throw.
  unfoldable pub ingest_event_log :
      Option JsNumber
      → Option EventLogSignature
      → Option EventFile
      → Database E N
      → Option (Bool × Database E N)
  ingest_event_log max_bytes none file db = some (true, db)
  ingest_event_log max_bytes (some signature) none db = some (true, db)
  ingest_event_log max_bytes (some signature) (some file) db =
      elim (read_event_log_incremental p file db.cursor max_bytes none) [
        | none ↦ none
        | some r ↦ some (ingest_result r r.records signature db)
      ]

  -- A database without a readable cursor gets one at the offset of its row, if it has one, or else
  -- at the end of the file. The result is `repaired` and the offset.
  unfoldable pub repair_broken_ingestion_cursor :
      Option JsNumber
      → Option EventLogSignature
      → EventFile
      → Database E N
      → Option ((Bool × ℕ) × Database E N)
  repair_broken_ingestion_cursor row_offset none file db = some ((false, 0), db)
  repair_broken_ingestion_cursor row_offset (some signature) file db = elim db.cursor [
    | some existing ↦ some ((false, existing.committed_offset), db)
    | none ↦
        let offset = min (stored_offset row_offset signature.size) signature.size in
        elim (create_event_log_cursor p file (whole offset)) [
          | none ↦ none
          | some cursor ↦
              some ((true, offset), record db { cursor = some cursor; signature = some signature })
        ]
  ]
