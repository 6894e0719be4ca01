-- ===== src/Sync/Utils.antt =====
-- apps/core/src/sync-utils.ts: the checks on what callers and adapters hand in, and the snapshots.
use Prim.Native.String.{◌++◌ as ◌++s◌}
use agent_metrics.Prelude.{
  ◌≡◌, refl, ◌⊎◌, inl, inr, ℕ, ◌*◌, ◌^◌, ◌-◌, min, Bool, false, not, ◌&&◌, Option, none, some,
  String, leb, if◌then◌else◌,
}
use agent_metrics.Prelude.Texts.{◌=s◌}
use agent_metrics.Sync.Types.{
  SyncAdapter, SyncAdapterState, SyncAdapterStatus, SyncError, SyncResult,
}
use agent_metrics.Sync.Summary.{trim, sanitize_summary}

abbrev pub default_freshness_ms : ℕ
default_freshness_ms = 5 * 60 * 1000

abbrev pub default_run_retention_ms : ℕ
default_run_retention_ms = 60 * 60 * 1000

abbrev pub default_periodic_sync_ms : ℕ
default_periodic_sync_ms = 60 * 1000

-- `SyncCoordinatorError`
pub record CoordinatorError : Type 0 where
  pub code : String
  pub message : String

pub data Outcome (A : Type 0) : Type 0 where
  ok : A → Outcome A
  throws : CoordinatorError → Outcome A

pub Outcome-cases :
    {A : Type 0} (o : Outcome A)
    → ((e : CoordinatorError) × (o ≡ throws e)) ⊎ ((a : A) × (o ≡ ok a))
Outcome-cases (ok a) = inr (a, refl)
Outcome-cases (throws e) = inl (e, refl)

pub ok-injective : {A : Type 0} {a b : A} → ok a ≡ ok b → a ≡ b
ok-injective e = cc

abbrev pub fail : {A : Type 0} → String → String → Outcome A
fail code message = throws (record { code = code; message = message })

-- A number that a caller or an adapter hands in: a non-negative integer, or anything else (a
-- negative, fractional or non-finite number, or no number at all).
pub data JsNumber : Type 0 where
  whole : ℕ → JsNumber
  other : JsNumber

-- `Number.MAX_SAFE_INTEGER`
abbrev pub max_safe_integer : ℕ
max_safe_integer = 2 ^ 53 - 1

-- `Number.isSafeInteger(count) && count >= 0`
abbrev pub is_count : JsNumber → Bool
is_count (whole n) = leb n max_safe_integer
is_count other = false

pub is_blank : String → Bool
is_blank s = trim s =s ""

unfoldable pub validate_adapter : SyncAdapter → Option CoordinatorError
unfolding is_blank
validate_adapter a =
    if is_blank a.adapter_instance_id
    then some (record {
      code = "INVALID_ADAPTER";
      message = "adapterInstanceId must be a non-empty string";
    })
    else if is_blank a.source_instance_id
    then some (record {
      code = "INVALID_ADAPTER";
      message = "sourceInstanceId must be a non-empty string";
    })
    else if a.sync_callable
    then none
    else some (record { code = "INVALID_ADAPTER"; message = "sync must be a function" })

unfoldable pub normalize_concurrency : Option JsNumber → Outcome ℕ
normalize_concurrency none = ok 2
normalize_concurrency (some (whole n)) =
    if leb n max_safe_integer && leb 1 n
    then ok (min n 2)
    else fail "INVALID_CONCURRENCY" "maxConcurrency must be a positive integer"
normalize_concurrency (some other) =
    fail "INVALID_CONCURRENCY" "maxConcurrency must be a positive integer"

-- A fractional duration, which the source would keep, is not among the values of the model.
unfoldable pub normalize_duration : Option JsNumber → ℕ → Outcome ℕ
normalize_duration none fallback = ok fallback
normalize_duration (some (whole n)) fallback = ok n
normalize_duration (some other) fallback =
    fail "INVALID_DURATION" "duration must be a non-negative finite number"

-- What the adapter's promise resolves to, before it is checked: the properties that the type
-- `SyncResult` has, and no others.
pub data RawResult : Type 0 where
  not_object : RawResult
  counts : JsNumber → JsNumber → JsNumber → JsNumber → RawResult

abbrev pub count_of : JsNumber → ℕ
count_of (whole n) = n
count_of other = 0

abbrev bad_count : String → Outcome SyncResult
bad_count name = fail "INVALID_SYNC_RESULT" (name ++s " must be a non-negative safe integer")

unfoldable pub normalize_result : RawResult → Outcome SyncResult
normalize_result not_object = fail "INVALID_SYNC_RESULT" "Adapter returned an invalid sync result"
normalize_result (counts d c p w) =
    if not (is_count d)
    then bad_count "discoveredRecords"
    else if not (is_count c)
    then bad_count "committedUniqueEvents"
    else if not (is_count p)
    then bad_count "projectedUniqueEvents"
    else if not (is_count w)
    then bad_count "projectionWatermark"
    else ok (record {
      discovered_records = count_of d;
      committed_unique_events = count_of c;
      projected_unique_events = count_of p;
      projection_watermark = count_of w;
    })

-- What an adapter's promise rejects with.
pub data Thrown : Type 0 where
  coordinator_error : CoordinatorError → Thrown
  js_error text : String → Thrown
  unknown : Thrown

abbrev pub thrown_message : Thrown → String
thrown_message (coordinator_error e) = e.message
thrown_message (js_error m) = m
thrown_message (text m) = m
thrown_message unknown = "Synchronization failed"

abbrev thrown_code : Thrown → String
thrown_code (coordinator_error e) = e.code
thrown_code _ = "SYNC_FAILED"

unfoldable pub to_sync_error : Thrown → SyncError
to_sync_error e = record { code = thrown_code e; summary = sanitize_summary (thrown_message e) }

pub record StateSnapshot : Type 0 where
  pub status : SyncAdapterStatus
  pub active_run_id : Option String
  pub pending_run_id : Option String
  pub last_started_at : Option ℕ
  pub last_completed_at : Option ℕ
  pub last_successful_at : Option ℕ
  pub next_scheduled_at : Option ℕ
  pub last_error : Option SyncError
  pub consecutive_failures : ℕ

unfoldable pub snapshot_state : SyncAdapterState → StateSnapshot
snapshot_state s = record {
  status = s.status;
  active_run_id = s.active_run_id;
  pending_run_id = s.pending_run_id;
  last_started_at = s.last_started_at;
  last_completed_at = s.last_completed_at;
  last_successful_at = s.last_successful_at;
  next_scheduled_at = s.next_scheduled_at;
  last_error = s.last_error;
  consecutive_failures = s.consecutive_failures;
}

unfoldable pub restore_state : SyncAdapterState → StateSnapshot → SyncAdapterState
restore_state s saved = record s {
  status = saved.status;
  active_run_id = saved.active_run_id;
  pending_run_id = saved.pending_run_id;
  last_started_at = saved.last_started_at;
  last_completed_at = saved.last_completed_at;
  last_successful_at = saved.last_successful_at;
  next_scheduled_at = saved.next_scheduled_at;
  last_error = saved.last_error;
  consecutive_failures = saved.consecutive_failures;
}
