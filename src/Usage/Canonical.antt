-- ===== src/Usage/Canonical.antt =====
-- The counts of one row: what is displayed, and what is added up.
use agent_metrics.Prelude.{
  ℕ, ◌+◌, ◌≡◌, ◌≤◌, ◌<◌, ◌↔◌, true, false, none, some, inl, inr, arith, if◌then◌else◌, Option-cases,
}
use agent_metrics.Usage.Tokens.{
  NormalizedUsage, TokenUsageRow, is_delta, displayed_input_tokens, total_tokens,
  to_normalized_usage, present, resolve_displayed_input_tokens, resolve_total_tokens,
  is_legacy_gross, resolve_semantics, resolve_measurement,
}

-- The total of a row counts what was read from the cache once: it is the sum of the four counts
-- for a delta, and for an input that is not a delta and not less than what was read from the
-- cache it is the input, the output and what was written to the cache. No total is given exactly
-- where the input is not a delta and less than what was read from the cache.
pub total_counts_cache_once :
    (u : NormalizedUsage)
    → ((is_delta u.input_token_semantics ≡ true)
        → total_tokens u
          ≡ some (
              u.input_tokens + u.output_tokens + u.cache_read_input_tokens
              + u.cache_creation_input_tokens))
      × ((is_delta u.input_token_semantics ≡ false)
          → u.cache_read_input_tokens ≤ u.input_tokens
          → total_tokens u
            ≡ some (u.input_tokens + u.output_tokens + u.cache_creation_input_tokens))
      × ((total_tokens u ≡ none) ↔ (
          (is_delta u.input_token_semantics ≡ false)
          × (u.input_tokens < u.cache_read_input_tokens)))
unfolding total_tokens displayed_input_tokens
total_counts_cache_once u = (
  (λ d. ground arith),
  (λ d h. ground arith),
  ((λ e. (ground arith, ground arith)), (λ p. ground (arith, p.0, p.1))),
)

-- The counts of the normalized usage are those of the row.
module _ (row : TokenUsageRow) (u : NormalizedUsage) where
  normalized-counts :
      to_normalized_usage row ≡ some u
      → (u.output_tokens ≡ row.output_tokens)
        × (u.cache_creation_input_tokens ≡ row.cache_creation_input_tokens)
        × (u.cache_read_input_tokens ≡ row.cache_read_input_tokens)
        × (u.input_tokens ≡ row.input_tokens)
  unfolding to_normalized_usage
  normalized-counts e = elim (Option-cases (present (resolve_semantics row))) [
    | inl missing ↦ absurd (ground arith)
    | inr (semantics, found) ↦ elim (Option-cases (present (resolve_measurement row))) [
      | inl missing ↦ absurd (ground arith)
      | inr (measurement, known) ↦ (ground arith, ground arith, ground arith, ground arith)
    ]
  ]

-- Rows with usable semantics are resolved as the canonical functions say: where these give a
-- displayed input and a total for the usage that a row stands for, the resolvers give the same.
pub resolvers_agree :
    (row : TokenUsageRow) (u : NormalizedUsage) (n t : ℕ)
    → to_normalized_usage row ≡ some u
    → displayed_input_tokens u ≡ some n
    → total_tokens u ≡ some t
    → (resolve_displayed_input_tokens row ≡ n) × (resolve_total_tokens row ≡ t)
unfolding resolve_displayed_input_tokens resolve_total_tokens total_tokens
resolvers_agree row u n t e shown total =
    let (output, creation, read, input) = normalized-counts row u e in (ground arith, ground arith)

-- A row that stands for a usage without a displayed input, since it is not a delta and its input is
-- less than what was read from the cache, is displayed as 0 where its vendor is on the legacy list,
-- and with its whole input where it is not.
pub invalid_row_displayed :
    (row : TokenUsageRow) (u : NormalizedUsage)
    → to_normalized_usage row ≡ some u
    → displayed_input_tokens u ≡ none
    → resolve_displayed_input_tokens row
      ≡ (if is_legacy_gross row.source_vendor then 0 else row.input_tokens)
unfolding resolve_displayed_input_tokens displayed_input_tokens
invalid_row_displayed row u e bad =
    let (output, creation, read, input) = normalized-counts row u e in ground arith
