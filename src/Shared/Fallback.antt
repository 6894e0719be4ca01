-- ===== src/Shared/Fallback.antt =====
-- The ledger that a fallback has rebuilt is found in the file afterwards.
use agent_metrics.Prelude.{
  ◌≡◌, refl, ◌∙◌, String, false, ◌||◌, ◌⊎◌, List, [], ◌∷◌, arith, Bool-cases, inl, inr, length, ltb,
  map,
}
use agent_metrics.Prelude.Texts.{◌=s◌, contains, add, contains-add}
use agent_metrics.Shared.Ledger.{
  text, LedgerFile, EventLog, Reading, done, failed, add_texts, insert, sorted, load_event_ledger,
  persist_event_ledger, rebuild_event_ledger_from_log, load_event_ledger_with_fallback,
}

contains-insert :
    (x : String) (ys : List String) (z : String)
    → contains (insert x ys) z ≡ ((x =s z) || contains ys z)
unfolding contains
contains-insert x [] z = ground arith
contains-insert x (y ∷ ys) z = ground (arith, contains-insert x ys z)

contains-sorted : (xs : List String) (z : String) → contains (sorted xs) z ≡ contains xs z
unfolding contains
contains-sorted [] z = refl
contains-sorted (x ∷ xs) z = ground (arith, contains-sorted xs z, contains-insert x (sorted xs) z)

contains-add_texts :
    (seen ids : List String) (z : String)
    → contains (add_texts seen (map text ids)) z ≡ (contains seen z || contains ids z)
unfolding contains
contains-add_texts seen [] z = ground arith
contains-add_texts seen (x ∷ ids) z =
    ground (arith, contains-add_texts (add seen x) ids z, contains-add seen x z)

contains-persisted :
    (ids : List String) (z : String)
    → contains (load_event_ledger (persist_event_ledger ids)) z ≡ contains ids z
unfolding load_event_ledger persist_event_ledger contains
contains-persisted ids z = contains-add_texts [] (sorted ids) z ∙ contains-sorted ids z

empty_of :
    (xs ys : List String) (z : String)
    → ltb 0 (length xs) ≡ false
    → ltb 0 (length ys) ≡ false
    → contains xs z ≡ contains ys z
empty_of [] [] z h k = refl
empty_of (x ∷ xs) ys z h k = absurd (ground arith)
empty_of [] (y ∷ ys) z h k = absurd (ground arith)

Reading-cases : {A : Type 0} (o : Reading A) → (o ≡ failed) ⊎ ((a : A) × (o ≡ done a))
Reading-cases failed = inl refl
Reading-cases (done a) = inr (a, refl)

-- Whenever the ledger is loaded with success, from its file or by a scan of the log, the ids
-- that are returned are those that the file holds afterwards.
pub fallback_saved :
    (file : LedgerFile) (log : EventLog) (prefix : String) (ids : List String)
    → (load_event_ledger_with_fallback file log prefix).0 ≡ done ids
    → (key : String)
    → contains (load_event_ledger (load_event_ledger_with_fallback file log prefix).1) key
      ≡ contains ids key
unfolding load_event_ledger_with_fallback
fallback_saved file log prefix ids e key =
    elim (Bool-cases (ltb 0 (length (load_event_ledger file)))) [
      | inl there ↦ ground arith
      | inr empty ↦ elim (Reading-cases (rebuild_event_ledger_from_log log prefix)) [
        | inl broken ↦ absurd (ground arith)
        | inr (rebuilt, found) ↦ elim (Bool-cases (ltb 0 (length rebuilt))) [
          | inl some_ids ↦ ground (arith, contains-persisted rebuilt key)
          | inr no_ids ↦ ground (arith, empty_of (load_event_ledger file) rebuilt key empty no_ids)
        ]
      ]
    ]
