-- ===== src/Shared/Ledger.antt =====
-- packages/shared-utils/src/ledger.ts: the ledger of the events that an adapter has written. A file
-- is given by what the code's tests see of it: reading files and JSON are the platform's.
use Prim.Native.Char.{code}
use Prim.Native.String.{compare as compare_text}
use agent_metrics.Prelude.{
  ℕ, ◌+◌, String, Bool, true, false, not, ◌&&◌, Option, none, some, List, [], ◌∷◌, ltb, ◌==◌,
  Ordering, if◌then◌else◌, length, map,
}
use agent_metrics.Prelude.Texts.{◌=s◌, contains, add, delete}

-- A value read from JSON: a text, or anything else (`undefined` included).
pub data Field : Type 0 where
  text : String → Field
  other : Field

-- The ledger file: not there or not readable, not JSON, no object with an array `eventIds`, or the
-- entries of that array.
pub data LedgerFile : Type 0 where
  unreadable not_json not_ledger : LedgerFile
  ledger : List Field → LedgerFile

-- A line of the event log: not JSON, no object, or its `source_record_id` and `event_id`.
pub data LogLine : Type 0 where
  not_json not_object : LogLine
  object : Field → Field → LogLine

-- The event log: not there (ENOENT), an error while it is read, or its lines.
pub data EventLog : Type 0 where
  missing broken : EventLog
  lines : List LogLine → EventLog

-- What a function that reads returns, unless it throws.
pub data Reading (A : Type 0) : Type 0 where
  done : A → Reading A
  failed : Reading A

abbrev pub add_texts : List String → List Field → List String
add_texts seen [] = seen
add_texts seen (text t ∷ entries) = add_texts (add seen t) entries
add_texts seen (other ∷ entries) = add_texts seen entries

unfoldable pub load_event_ledger : LedgerFile → List String
load_event_ledger (ledger entries) = add_texts [] entries
load_event_ledger _ = []

abbrev key_of_id : Field → Option String
key_of_id (text t) = some t
key_of_id other = none

-- The key of a line in `readLedgerKeys`.
abbrev pub ledger_key : LogLine → Option String
ledger_key not_json = none
ledger_key not_object = none
ledger_key (object (text source) event) = if source =s "" then key_of_id event else some source
ledger_key (object other event) = key_of_id event

unfoldable pub read_ledger_keys : List LogLine → List String
read_ledger_keys [] = []
read_ledger_keys (line ∷ rest) =
    let keys = read_ledger_keys rest in
    elim (ledger_key line) [ none ↦ keys | some key ↦ key ∷ keys ]

-- `key.startsWith(prefix)`
unfoldable pub starts_with : String → String → Bool
starts_with String.[] key = true
starts_with (String.◌∷◌ c prefix) String.[] = false
starts_with (String.◌∷◌ c prefix) (String.◌∷◌ d key) =
    let rest = starts_with prefix key in if code c == code d then rest else false

-- The set of the keys that a test keeps.
unfoldable pub collect : (String → Bool) → List String → List String → List String
collect keep found [] = found
collect keep found (key ∷ keys) = collect keep (if keep key then add found key else found) keys

unfoldable pub rebuild_event_ledger_from_log : EventLog → String → Reading (List String)
rebuild_event_ledger_from_log missing prefix = done []
rebuild_event_ledger_from_log broken prefix = failed
rebuild_event_ledger_from_log (lines ls) prefix =
    done (collect (starts_with prefix) [] (read_ledger_keys ls))

abbrev pub insert : String → List String → List String
insert x [] = x ∷ []
insert x (y ∷ ys) =
    let rest = insert x ys in elim (compare_text x y) [ Ordering.gt ↦ y ∷ rest | _ ↦ x ∷ y ∷ ys ]

-- `[...eventIds].sort()`. The source compares UTF-16 units, and the native order code points: the
-- order differs only between ids with characters beyond U+FFFF and ids with ones from U+E000 on.
abbrev pub sorted : List String → List String
sorted [] = []
sorted (x ∷ xs) = insert x (sorted xs)

-- The file that `persistEventLedger` writes.
unfoldable pub persist_event_ledger : List String → LedgerFile
persist_event_ledger ids = ledger (map text (sorted ids))

-- The ids and the ledger file afterwards.
unfoldable pub load_event_ledger_with_fallback :
    LedgerFile → EventLog → String → Reading (List String) × LedgerFile
load_event_ledger_with_fallback file log prefix =
    let ids = load_event_ledger file in
    if ltb 0 (length ids)
    then (done ids, file)
    else elim (rebuild_event_ledger_from_log log prefix) [
      | failed ↦ (failed, file)
      | done rebuilt ↦
          (done rebuilt, if ltb 0 (length rebuilt) then persist_event_ledger rebuilt else file)
    ]

-- The caller's set and what was counted.
pub record Tally : Type 0 where
  pub seen : List String
  pub count : ℕ

module _ (is_ghost : String → Bool) where
  abbrev remove_ghost : String → Tally → Tally
  remove_ghost key t =
      if is_ghost key then record { seen = delete t.seen key; count = t.count + 1 } else t

  -- The first loop of `reconcileLedgerSessionsWithEventLog`.
  unfoldable pub remove_ghosts : List String → Tally → Tally
  remove_ghosts [] t = t
  remove_ghosts (key ∷ keys) t = remove_ghosts keys (remove_ghost key t)

abbrev add_key : String → Tally → Tally
add_key key t =
    if contains t.seen key then t else record { seen = add t.seen key; count = t.count + 1 }

-- The second loop.
unfoldable pub add_missing : List String → Tally → Tally
add_missing [] t = t
add_missing (key ∷ keys) t = add_missing keys (add_key key t)

pub record Reconciled : Type 0 where
  pub seen : List String
  pub removed : ℕ
  pub added : ℕ

abbrev pub is_claimed : (String → Option String) → List String → String → Bool
is_claimed session_id_from_key sessions key = elim (session_id_from_key key) [
  | none ↦ false
  | some session ↦ contains sessions session
]

module _ (session_id_from_key : String → Option String) (prefix : String)
    (sessions : List String) where
  unfoldable pub collect_for_sessions : EventLog → Reading (List String)
  collect_for_sessions missing = failed
  collect_for_sessions broken = failed
  collect_for_sessions (lines ls) = done (
      collect (λ key. starts_with prefix key && is_claimed session_id_from_key sessions key) []
        (read_ledger_keys ls))

  -- The set of the caller afterwards and the counts; where it throws the set is as it was.
  unfoldable pub reconcile : EventLog → List String → Reading Reconciled
  unfolding remove_ghosts add_missing
  reconcile log seen =
      if length sessions == 0
      then done (record { seen = seen; removed = 0; added = 0 })
      else elim (collect_for_sessions log) [
        | failed ↦ failed
        | done log_keys ↦
            let kept : Tally =
              remove_ghosts
                (λ key. is_claimed session_id_from_key sessions key && not (contains log_keys key))
                seen (record { seen = seen; count = 0 }) in
            let full : Tally = add_missing log_keys (record { seen = kept.seen; count = 0 }) in
            done (record { seen = full.seen; removed = kept.count; added = full.count })
      ]
