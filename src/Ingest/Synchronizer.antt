-- ===== src/Ingest/Synchronizer.antt =====
-- `createEventLogSynchronizer` of apps/core/src/event-log-projector.ts. Its calls run one after the
-- other; a state is what `ingest` changes.
use agent_metrics.Prelude.{
  ℕ, zero, suc, Bool, true, false, ◌&&◌, ◌==◌, Option, none, some, if◌then◌else◌,
}
use agent_metrics.Ingest.Projector.{EventLogSignature}

unfoldable pub is_same_event_log_signature :
    Option EventLogSignature → Option EventLogSignature → Bool
is_same_event_log_signature none none = true
is_same_event_log_signature none (some right) = false
is_same_event_log_signature (some left) none = false
is_same_event_log_signature (some left) (some right) =
    (left.size == right.size) && (left.mtime_ms == right.mtime_ms)

-- How the loop ends: at the end of the log, at the guard, or by a throw.
pub data DrainEnd : Type 0 where
  at_end guarded threw : DrainEnd

abbrev pub ingest_guard : ℕ
ingest_guard = 512

-- `ingest` answers whether it is at the end, or throws and changes nothing.
module _ {S : Type 0} (ingest : S → Option (Bool × S)) where
  -- The loop, with the rounds that are left.
  unfoldable pub drain : ℕ → S → DrainEnd × S
  drain zero s = (guarded, s)
  drain (suc rounds) s = elim (ingest s) [
    | none ↦ (threw, s)
    | some (caught_up, s') ↦ elim caught_up [ true ↦ (at_end, s') | false ↦ drain rounds s' ]
  ]

  abbrev pub mark_drained :
      EventLogSignature → Option EventLogSignature → DrainEnd → Option EventLogSignature
  mark_drained signature last at_end = some signature
  mark_drained signature last guarded = last
  mark_drained signature last threw = last

  -- One call: with the signature of the log that is found, the one that was fully drained last,
  -- and the state.
  unfoldable pub synchronize :
      Option EventLogSignature → Option EventLogSignature × S → Option EventLogSignature × S
  synchronize none (last, s) = (none, s)
  synchronize (some signature) (last, s) =
      if is_same_event_log_signature (some signature) last
      then (last, s)
      else let (end, s') = drain ingest_guard s in (mark_drained signature last end, s')
