-- ===== src/Usage/Totals.antt =====
-- The sums over all the rows of an overview.
use agent_metrics.Prelude.{
  ℕ, ◌+◌, ◌≤◌, ◌≡◌, ◌⊎◌, refl, true, false, some, inl, inr, List, [], ◌∷◌, ◌++◌, filter, sum_by,
  arith, ap, ◌∙◌, Option-cases, Bool-cases,
}
use agent_metrics.Prelude.Texts.{◌=s◌, eq_of_=s}
use agent_metrics.Usage.Tokens.{
  TokenUsageRow, is_additive_usage, resolve_displayed_input_tokens, resolve_total_tokens,
  to_normalized_usage, resolve_semantics, resolve_measurement, displayed_input_tokens,
}
use agent_metrics.Usage.Overview.{OverviewInput, executions, build_overview_metrics}

totals-sum :
    (rows : List TokenUsageRow)
    → sum_by resolve_total_tokens rows
      ≡ sum_by resolve_displayed_input_tokens rows
        + sum_by (λ row. row.output_tokens) rows
        + sum_by (λ row. row.cache_read_input_tokens) rows
        + sum_by (λ row. row.cache_creation_input_tokens) rows
unfolding resolve_total_tokens
totals-sum [] = refl
totals-sum (row ∷ rows) = omega (arith, totals-sum rows)

-- In every overview the total is the sum of the four counts that are shown beside it, and the calls
-- are those that succeeded with those that failed.
pub overview_adds_up :
    (input : OverviewInput)
    → ((build_overview_metrics input).total_tokens
        ≡ (build_overview_metrics input).input_tokens
          + (build_overview_metrics input).output_tokens
          + (build_overview_metrics input).cache_read_tokens
          + (build_overview_metrics input).cache_creation_tokens)
      × ((build_overview_metrics input).total_tool_calls
          ≡ (build_overview_metrics input).successful_executions
            + (build_overview_metrics input).failed_executions)
unfolding build_overview_metrics
overview_adds_up input = (totals-sum (filter is_additive_usage input.token_usage), refl)

filter-skip :
    (rows others : List TokenUsageRow) (row : TokenUsageRow)
    → is_additive_usage row ≡ false
    → filter is_additive_usage (rows ++ row ∷ others) ≡ filter is_additive_usage (rows ++ others)
filter-skip [] others row e = ground arith
filter-skip (r ∷ rows) others row e = ground (arith, filter-skip rows others row e)

snapshot-not-additive :
    (row : TokenUsageRow)
    → (row.usage_measurement ≡ some "session-context-snapshot")
      ⊎ (row.usage_source ≡ some "cursor-composer-context")
    → is_additive_usage row ≡ false
unfolding is_additive_usage
snapshot-not-additive row (inl own) = rw own refl
snapshot-not-additive row (inr source) = rw source (ground arith)

-- A row that calls itself a snapshot of a context, or whose source is the context of the Cursor
-- composer, changes nothing in the overview, wherever it stands among the rows.
pub snapshots_ignored :
    (input : OverviewInput) (rows others : List TokenUsageRow) (row : TokenUsageRow)
    → (row.usage_measurement ≡ some "session-context-snapshot")
      ⊎ (row.usage_source ≡ some "cursor-composer-context")
    → build_overview_metrics (record input { token_usage = rows ++ row ∷ others })
      ≡ build_overview_metrics (record input { token_usage = rows ++ others })
unfolding build_overview_metrics executions
snapshots_ignored input rows others row h =
    rw (filter-skip rows others row (snapshot-not-additive row h)) refl

filter-keep :
    (rows others : List TokenUsageRow) (row : TokenUsageRow)
    → is_additive_usage row ≡ true
    → sum_by resolve_total_tokens (filter is_additive_usage (rows ++ row ∷ others))
      ≡ sum_by resolve_total_tokens (filter is_additive_usage (rows ++ others))
        + resolve_total_tokens row
filter-keep [] others row e = ground arith
filter-keep (r ∷ rows) others row e = ground (arith, filter-keep rows others row e)

increment-additive :
    (row : TokenUsageRow)
    → row.usage_measurement ≡ some "increment"
    → ¬ (row.usage_source ≡ some "cursor-composer-context")
    → is_additive_usage row ≡ true
unfolding is_additive_usage
increment-additive row m other = elim (Option-cases row.usage_source) [
  | inl e ↦ rw (m, e) refl
  | inr (source, e) ↦ elim (Bool-cases (source =s "cursor-composer-context")) [
    | inl same ↦ absurd (other (e ∙ ap some (eq_of_=s source "cursor-composer-context" same)))
    | inr differs ↦ rw (m, e, differs) refl
  ]
]

delta-total :
    (row : TokenUsageRow)
    → row.usage_measurement ≡ some "increment"
    → row.input_token_semantics ≡ some "delta"
    → resolve_total_tokens row
      ≡ row.input_tokens + row.output_tokens + row.cache_read_input_tokens
        + row.cache_creation_input_tokens
unfolding resolve_total_tokens resolve_displayed_input_tokens to_normalized_usage resolve_semantics
    resolve_measurement displayed_input_tokens
delta-total row m e = rw (m, e) refl

gross-total :
    (row : TokenUsageRow)
    → row.usage_measurement ≡ some "increment"
    → row.input_token_semantics ≡ some "gross"
    → row.cache_read_input_tokens ≤ row.input_tokens
    → resolve_total_tokens row
      ≡ row.input_tokens + row.output_tokens + row.cache_creation_input_tokens
unfolding resolve_total_tokens resolve_displayed_input_tokens to_normalized_usage resolve_semantics
    resolve_measurement displayed_input_tokens
gross-total row m e fits = rw (m, e) (ground arith)

-- The total of the overview with these rows.
abbrev pub total_over : OverviewInput → List TokenUsageRow → ℕ
total_over input rows = (build_overview_metrics (record input { token_usage = rows })).total_tokens

-- A row that calls itself an increment, whose source is not the context of the Cursor composer and
-- whose input holds what was read from the cache, adds to the total of the overview, wherever it
-- stands among the rows: where it says that its input is a delta, all its four counts; where it
-- says that its input is gross, its input, its output and what was written to the cache.
pub overview_counts_row :
    (input : OverviewInput) (rows others : List TokenUsageRow) (row : TokenUsageRow)
    → row.usage_measurement ≡ some "increment"
    → ¬ (row.usage_source ≡ some "cursor-composer-context")
    → row.cache_read_input_tokens ≤ row.input_tokens
    → ((row.input_token_semantics ≡ some "delta")
        → total_over input (rows ++ row ∷ others)
          ≡ total_over input (rows ++ others)
            + (row.input_tokens + row.output_tokens + row.cache_read_input_tokens
                + row.cache_creation_input_tokens))
      × ((row.input_token_semantics ≡ some "gross")
          → total_over input (rows ++ row ∷ others)
            ≡ total_over input (rows ++ others)
              + (row.input_tokens + row.output_tokens + row.cache_creation_input_tokens))
unfolding build_overview_metrics
overview_counts_row input rows others row m other fits =
    let kept = filter-keep rows others row (increment-additive row m other) in
    (
      λ delta. kept ∙ ap (◌+◌ (total_over input (rows ++ others))) (delta-total row m delta),
      λ gross. kept ∙ ap (◌+◌ (total_over input (rows ++ others))) (gross-total row m gross fits),
    )
