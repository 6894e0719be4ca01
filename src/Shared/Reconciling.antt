-- ===== src/Shared/Reconciling.antt =====
-- What the ledger holds after it was rebuilt, and after it was reconciled with the log.
use text.Mathlib.TextEquality.{eq_iff}
use text.Mathlib.TextPositions.{eq_refl}
use agent_metrics.Prelude.{
  ◌+◌, ◌≡◌, refl, sym, ◌∙◌, ap, String, Bool, true, false, not, ◌&&◌, ◌||◌, Option, List, [], ◌∷◌,
  inl, inr, arith, if◌then◌else◌, Bool-cases, length, ◌==◌,
}
use agent_metrics.Prelude.Texts.{contains, add, delete, contains-add, contains-delete}
use agent_metrics.Shared.Ledger.{
  LogLine, lines, done, collect, read_ledger_keys, starts_with, Tally, remove_ghosts, add_missing,
  Reconciled, is_claimed, collect_for_sessions, reconcile,
}

done-injective : {A : Type 0} {a b : A} → done a ≡ done b → a ≡ b
done-injective e = cc

contains-collect :
    (keep : String → Bool) (found keys : List String) (x : String)
    → contains (collect keep found keys) x ≡ (contains found x || (keep x && contains keys x))
unfolding collect contains
contains-collect keep found [] x = ground arith
contains-collect keep found (key ∷ keys) x = ground (
  arith,
  contains-collect keep (if keep key then add found key else found) keys x,
  contains-add found key x,
  eq_iff key x,
)

contains-remove_ghosts :
    (is_ghost : String → Bool) (keys : List String) (t : Tally) (x : String)
    → contains (remove_ghosts is_ghost keys t).seen x
      ≡ (contains t.seen x && not (contains keys x && is_ghost x))
unfolding remove_ghosts contains
contains-remove_ghosts is_ghost [] t x = ground arith
contains-remove_ghosts is_ghost (key ∷ keys) t x = elim (Bool-cases (is_ghost key)) [
  | inl ghost ↦ ground (
    arith,
    contains-delete t.seen key x,
    eq_iff key x,
    contains-remove_ghosts is_ghost keys (record { seen = delete t.seen key; count = t.count + 1 })
        x,
  )
  | inr real ↦ ground (arith, eq_iff key x, contains-remove_ghosts is_ghost keys t x)
]

contains-add_missing :
    (keys : List String) (t : Tally) (x : String)
    → contains (add_missing keys t).seen x ≡ (contains t.seen x || contains keys x)
unfolding add_missing contains
contains-add_missing [] t x = ground arith
contains-add_missing (key ∷ keys) t x = elim (Bool-cases (contains t.seen key)) [
  | inl there ↦ ground (arith, eq_iff key x, contains-add_missing keys t x)
  | inr new ↦ ground (
    arith,
    contains-add t.seen key x,
    eq_iff key x,
    contains-add_missing keys (record { seen = add t.seen key; count = t.count + 1 }) x,
  )
]

remove_ghosts-none :
    (is_ghost : String → Bool) (keys : List String) (t : Tally)
    → ((x : String) → contains keys x ≡ true → is_ghost x ≡ false)
    → remove_ghosts is_ghost keys t ≡ t
unfolding remove_ghosts contains
remove_ghosts-none is_ghost [] t h = refl
remove_ghosts-none is_ghost (key ∷ keys) t h =
    let rest = remove_ghosts-none is_ghost keys t (λ x k. h x (ground arith)) in
    ground (arith, h key, eq_refl key, rest)

add_missing-none :
    (keys : List String) (t : Tally)
    → ((x : String) → contains keys x ≡ true → contains t.seen x ≡ true)
    → add_missing keys t ≡ t
unfolding add_missing contains
add_missing-none [] t h = refl
add_missing-none (key ∷ keys) t h =
    let rest = add_missing-none keys t (λ x k. h x (ground arith)) in
    ground (arith, h key, eq_refl key, rest)

module _ (session_id_from_key : String → Option String) (prefix : String)
    (sessions : List String) where
  abbrev claimed : String → Bool
  claimed key = is_claimed session_id_from_key sessions key

  -- The keys that the log has for the sessions.
  abbrev log_keys : List LogLine → List String
  log_keys ls = collect (λ key. starts_with prefix key && claimed key) [] (read_ledger_keys ls)

  -- A key that is in the log, has the prefix and belongs to one of the sessions.
  abbrev pub is_logged : List LogLine → String → Bool
  is_logged ls key = starts_with prefix key && claimed key && contains (read_ledger_keys ls) key

  contains-log_keys :
      (ls : List LogLine) (key : String) → contains (log_keys ls) key ≡ is_logged ls key
  unfolding contains
  contains-log_keys ls key =
      contains-collect (λ k. starts_with prefix k && claimed k) [] (read_ledger_keys ls) key
      ∙ ground arith

  abbrev kept : List LogLine → List String → Tally
  kept ls seen =
      remove_ghosts (λ key. claimed key && not (contains (log_keys ls) key)) seen
        (record { seen = seen; count = 0 })

  abbrev full : List LogLine → List String → Tally
  full ls seen = add_missing (log_keys ls) (record { seen = (kept ls seen).seen; count = 0 })

  contains-full :
      (ls : List LogLine) (seen : List String) (key : String)
      → contains (full ls seen).seen key
        ≡ (if claimed key then is_logged ls key else contains seen key)
  contains-full ls seen key = ground (
    arith,
    contains-log_keys ls key,
    contains-add_missing (log_keys ls) (record { seen = (kept ls seen).seen; count = 0 }) key,
    contains-remove_ghosts (λ k. claimed k && not (contains (log_keys ls) k)) seen
        (record { seen = seen; count = 0 }) key,
  )

  reconcile-full :
      (ls : List LogLine) (seen : List String)
      → (length sessions == 0) ≡ false
      → reconcile session_id_from_key prefix sessions (lines ls) seen
        ≡ done (record {
          seen = (full ls seen).seen;
          removed = (kept ls seen).count;
          added = (full ls seen).count;
        })
  unfolding reconcile collect_for_sessions
  reconcile-full ls seen some_session = rw some_session refl

  -- A set that the log agrees with is left as it is.
  settled-full :
      (ls : List LogLine) (seen : List String)
      → ((key : String) → claimed key ≡ true → contains seen key ≡ is_logged ls key)
      → (kept ls seen ≡ record { seen = seen; count = 0 })
        × (full ls seen ≡ record { seen = seen; count = 0 })
  settled-full ls seen agrees =
      let first =
        remove_ghosts-none (λ k. claimed k && not (contains (log_keys ls) k)) seen
          (record { seen = seen; count = 0 })
          (λ key there. ground (arith, agrees key, contains-log_keys ls key)) in
      (
        first,
        ap (λ (t : Tally). add_missing (log_keys ls) (record { seen = t.seen; count = 0 })) first
            ∙ add_missing-none (log_keys ls) (record { seen = seen; count = 0 })
                (λ key there. ground (arith, agrees key, contains-log_keys ls key)),
      )

-- Where the log can be read and there is a session to reconcile, the caller's set has afterwards,
-- of the keys of these sessions, exactly those that the log has under the prefix, and every other
-- key exactly as before.
pub reconcile_matches_log :
    (session_id_from_key : String → Option String) (prefix : String) (sessions : List String)
    (ls : List LogLine) (seen : List String)
    → (length sessions == 0) ≡ false
    → (r : Reconciled) × (reconcile session_id_from_key prefix sessions (lines ls) seen ≡ done r)
      × ((key : String)
          → contains r.seen key ≡ (
              if is_claimed session_id_from_key sessions key
              then is_logged session_id_from_key prefix sessions ls key
              else contains seen key))
reconcile_matches_log f prefix sessions ls seen h = (
  record {
    seen = (full f prefix sessions ls seen).seen;
    removed = (kept f prefix sessions ls seen).count;
    added = (full f prefix sessions ls seen).count;
  },
  reconcile-full f prefix sessions ls seen h,
  contains-full f prefix sessions ls seen,
)

-- To reconcile a set once more with the same log changes nothing and counts nothing.
pub reconcile_idempotent :
    (session_id_from_key : String → Option String) (prefix : String) (sessions : List String)
    (ls : List LogLine) (seen : List String) (r : Reconciled)
    → (length sessions == 0) ≡ false
    → reconcile session_id_from_key prefix sessions (lines ls) seen ≡ done r
    → reconcile session_id_from_key prefix sessions (lines ls) r.seen
      ≡ done (record { seen = r.seen; removed = 0; added = 0 })
reconcile_idempotent f prefix sessions ls seen r h e =
    let same =
      ap (λ (q : Reconciled). q.seen)
        (done-injective (sym e ∙ reconcile-full f prefix sessions ls seen h)) in
    let (unkept, unadded) = settled-full f prefix sessions ls r.seen (λ key c.
      ground (arith, ap (λ s. contains s key) same, contains-full f prefix sessions ls seen key)) in
    reconcile-full f prefix sessions ls r.seen h
    ∙ ap
        (λ (q : Tally). done (record {
          seen = q.seen;
          removed = (kept f prefix sessions ls r.seen).count;
          added = q.count;
        }))
        unadded
    ∙ ap (λ (q : Tally). done (record { seen = r.seen; removed = q.count; added = 0 })) unkept
