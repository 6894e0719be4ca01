-- ===== src/Sync/Checks.antt =====
-- What the checks of apps/core/src/sync-utils.ts let pass.
use agent_metrics.Prelude.{
  ℕ, ◌-◌, ◌≤◌, ◌≡◌, ◌↔◌, refl, String, true, false, arith, if◌then◌else◌, leb, subst, if_cases,
  leb→le,
}
use agent_metrics.Sync.Types.{SyncResult}
use agent_metrics.Sync.Summary.{
  error_summary_limit, units, utf16_length, slice_units, sanitize_summary, is_empty, trim, collapse,
  blank_controls, strip_escapes, default_summary,
}
use agent_metrics.Sync.Utils.{
  ok, ok-injective, JsNumber, whole, other, max_safe_integer, RawResult, not_object, counts,
  normalize_result, Thrown, to_sync_error, thrown_message, is_count, count_of,
}

slice_units-le : (n : ℕ) (s : String) → utf16_length (slice_units n s) ≤ n
unfolding utf16_length slice_units
slice_units-le n String.[] = omega arith
slice_units-le n (String.◌∷◌ c s) =
    if_cases (λ t. utf16_length t ≤ n) (leb (units c) n)
      (λ fits. omega (arith, leb→le (units c) n fits, slice_units-le (n - units c) s))
      (λ over. omega arith)

slice_units-full :
    (n : ℕ) (s : String) → 2 ≤ n → is_empty s ≡ false → is_empty (slice_units n s) ≡ false
unfolding slice_units
slice_units-full n String.[] h e = cc
slice_units-full n (String.◌∷◌ c s) h e =
    if_cases (λ t. is_empty t ≡ false) (leb (units c) n) (λ fits. refl)
      (λ over. absurd (ground (arith, over)))

or_default-full : (s : String) → is_empty (if is_empty s then default_summary else s) ≡ false
or_default-full String.[] = refl
or_default-full (String.◌∷◌ c s) = refl

-- Whatever an adapter throws, the summary of the error is not empty and has at most 2048 UTF-16
-- units.
pub summary_is_short :
    (e : Thrown)
    → (is_empty (to_sync_error e).summary ≡ false)
      × (utf16_length (to_sync_error e).summary ≤ error_summary_limit)
unfolding to_sync_error sanitize_summary
summary_is_short e =
    let summary = trim (collapse false (blank_controls (strip_escapes 0 (thrown_message e)))) in
    (
      slice_units-full error_summary_limit (if is_empty summary then default_summary else summary)
          (omega arith) (or_default-full summary),
      slice_units-le error_summary_limit (if is_empty summary then default_summary else summary),
    )

count-whole :
    (n : JsNumber) → is_count n ≡ true → (n ≡ whole (count_of n)) × (count_of n ≤ max_safe_integer)
count-whole (whole n) h = (refl, leb→le _ _ h)
count-whole other h = cc

-- The adapter's object has these four counts, and each is a safe integer.
abbrev pub HasCounts : RawResult → SyncResult → Type 0
HasCounts raw r =
    (raw
      ≡ counts (whole r.discovered_records) (whole r.committed_unique_events)
          (whole r.projected_unique_events) (whole r.projection_watermark))
    × (r.discovered_records ≤ max_safe_integer)
    × (r.committed_unique_events ≤ max_safe_integer)
    × (r.projected_unique_events ≤ max_safe_integer)
    × (r.projection_watermark ≤ max_safe_integer)

-- A result of an adapter is accepted exactly where it is an object whose four counts are
-- non-negative safe integers, and then it is taken over unchanged.
pub accepted_results :
    (raw : RawResult) (r : SyncResult) → (normalize_result raw ≡ ok r) ↔ HasCounts raw r
unfolding normalize_result
accepted_results not_object r = ((λ e. absurd (ground arith)), λ p. absurd (ground (arith, p.0)))
accepted_results (counts d c q w) r = (
  (λ e.
      let first = count-whole d (ground arith) in
      let second = count-whole c (ground arith) in
      let third = count-whole q (ground arith) in
      let fourth = count-whole w (ground arith) in
      let taken : SyncResult = record {
        discovered_records = count_of d;
        committed_unique_events = count_of c;
        projected_unique_events = count_of q;
        projection_watermark = count_of w;
      } in
      let same : taken ≡ r = ok-injective (ground arith) in
      subst (λ (x : SyncResult). HasCounts (counts d c q w) x) same
        (
          ground (arith, first.0, second.0, third.0, fourth.0),
          first.1,
          second.1,
          third.1,
          fourth.1,
        )),
  λ p.
      let (same, first, second, third, fourth) = p in
      let d_is : d ≡ whole r.discovered_records = cc in
      let c_is : c ≡ whole r.committed_unique_events = cc in
      let q_is : q ≡ whole r.projected_unique_events = cc in
      let w_is : w ≡ whole r.projection_watermark = cc in
      rw (d_is, c_is, q_is, w_is) (ground arith),
)
