-- ===== src/Usage/Tests.antt =====
-- Token accounting at concrete rows.
use agent_metrics.Prelude.{
  ℕ, ◌+◌, ◌≡◌, ◌≤◌, ◌<◌, ◌↔◌, refl, String, true, false, none, some, List, [], ◌∷◌, ◌++◌,
  if◌then◌else◌, Option, Bool, length, inr, ap, arith,
}
use agent_metrics.Prelude.Texts.{◌=s◌, contains, add, IsNodup}
use agent_metrics.Usage.Registry.{
  InputTokenSemantics, UsageMeasurement, in_registry, usage_source_semantics,
}
use agent_metrics.Usage.Tokens.{
  NormalizedUsage, TokenUsageRow, is_delta, to_normalized_usage, displayed_input_tokens,
  total_tokens, resolve_displayed_input_tokens, resolve_total_tokens, resolve_semantics,
  resolve_measurement, is_legacy_gross,
}
use agent_metrics.Usage.Overview.{
  OverviewInput, CodeEditRow, build_overview_metrics, deduped_files, add_all, affected_file_count,
}
use agent_metrics.Usage.Canonical.{total_counts_cache_once, resolvers_agree, invalid_row_displayed}
use agent_metrics.Usage.Totals.{
  overview_adds_up, snapshots_ignored, overview_counts_row, total_over,
}
use agent_metrics.Usage.Files.{files_counted_once, is_named, unnamed_files}

abbrev row_of : String → ℕ → ℕ → TokenUsageRow
row_of source input read = record {
  input_tokens = input;
  output_tokens = 7;
  cache_creation_input_tokens = 3;
  cache_read_input_tokens = read;
  source_vendor = some "codebuddy";
  usage_source = some source;
  input_token_semantics = none;
  usage_measurement = none;
}

abbrev usage_of : ℕ → ℕ → NormalizedUsage
usage_of input read = record {
  input_token_semantics = some InputTokenSemantics.gross;
  input_tokens = input;
  output_tokens = 7;
  cache_creation_input_tokens = 3;
  cache_read_input_tokens = read;
  usage_measurement = some UsageMeasurement.increment;
}

total_counts_cache_once_example :
    ((is_delta (some InputTokenSemantics.gross) ≡ true)
      → total_tokens (usage_of 100 60) ≡ some (100 + 7 + 60 + 3))
    × ((is_delta (some InputTokenSemantics.gross) ≡ false)
        → 60 ≤ 100
        → total_tokens (usage_of 100 60) ≡ some (100 + 7 + 3))
    × ((total_tokens (usage_of 100 60) ≡ none)
        ↔ ((is_delta (some InputTokenSemantics.gross) ≡ false) × (100 < 60)))
total_counts_cache_once_example = total_counts_cache_once (usage_of 100 60)

resolvers_agree_example :
    (resolve_displayed_input_tokens (row_of "codebuddy-log" 100 60) ≡ 40)
    × (resolve_total_tokens (row_of "codebuddy-log" 100 60) ≡ 110)
unfolding to_normalized_usage displayed_input_tokens total_tokens resolve_semantics
    resolve_measurement in_registry contains usage_source_semantics
resolvers_agree_example =
    resolvers_agree (row_of "codebuddy-log" 100 60) (usage_of 100 60) 40 110 refl refl refl

invalid_row_displayed_example :
    resolve_displayed_input_tokens (row_of "codebuddy-log" 10 60)
    ≡ (if is_legacy_gross (some "codebuddy") then 0 else 10)
unfolding to_normalized_usage displayed_input_tokens resolve_semantics resolve_measurement
    in_registry contains usage_source_semantics
invalid_row_displayed_example =
    invalid_row_displayed (row_of "codebuddy-log" 10 60) (usage_of 10 60) refl refl

abbrev edit : List String → ℕ → CodeEditRow
edit files n = record {
  files_changed = files;
  file_count = n;
  insertions = 4;
  deletions = 2;
  edit_operation_count = 1;
}

abbrev input : OverviewInput
input = record {
  sessions = "s" ∷ [];
  tool_events = record { status = "succeeded" } ∷ record { status = "failed" } ∷ [];
  tool_counts = none;
  prompts = "p" ∷ [];
  responses = [];
  token_usage = row_of "claude-transcript" 100 60 ∷ row_of "codebuddy-log" 100 60 ∷ [];
  code_edits = edit ("a.ts" ∷ "b.ts" ∷ []) 2 ∷ edit ("b.ts" ∷ []) 1 ∷ edit [] 5 ∷ [];
}

overview_adds_up_example :
    ((build_overview_metrics input).total_tokens
      ≡ (build_overview_metrics input).input_tokens
        + (build_overview_metrics input).output_tokens
        + (build_overview_metrics input).cache_read_tokens
        + (build_overview_metrics input).cache_creation_tokens)
    × ((build_overview_metrics input).total_tool_calls
        ≡ (build_overview_metrics input).successful_executions
          + (build_overview_metrics input).failed_executions)
overview_adds_up_example = overview_adds_up input

snapshots_ignored_example :
    build_overview_metrics (record input {
      token_usage = [] ++ row_of "cursor-composer-context" 9 1 ∷ input.token_usage;
    })
    ≡ build_overview_metrics (record input { token_usage = [] ++ input.token_usage })
snapshots_ignored_example =
    snapshots_ignored input [] input.token_usage (row_of "cursor-composer-context" 9 1) (inr refl)

-- A row that says itself what its counts mean.
abbrev gross_row : TokenUsageRow
gross_row = record (row_of "codex-rollout" 100 60) {
  input_token_semantics = some "gross";
  usage_measurement = some "increment";
}

abbrev is_composer : Option String → Bool
is_composer none = false
is_composer (some source) = source =s "cursor-composer-context"

false_not_true : ¬ (◌≡◌ {A = Bool} false true)
false_not_true e = cc

not_composer : ¬ (gross_row.usage_source ≡ some "cursor-composer-context")
not_composer e = absurd (false_not_true (ap is_composer e))

overview_counts_row_example :
    ((gross_row.input_token_semantics ≡ some "delta")
      → total_over input (input.token_usage ++ gross_row ∷ [])
        ≡ total_over input (input.token_usage ++ []) + (100 + 7 + 60 + 3))
    × ((gross_row.input_token_semantics ≡ some "gross")
        → total_over input (input.token_usage ++ gross_row ∷ [])
          ≡ total_over input (input.token_usage ++ []) + (100 + 7 + 3))
overview_counts_row_example =
    overview_counts_row input input.token_usage [] gross_row refl not_composer (omega arith)

files_counted_once_example :
    (paths : List String) × IsNodup paths
    × ((path : String) → contains paths path ≡ is_named input.code_edits path)
    × ((build_overview_metrics input).affected_file_count
        ≡ length paths + unnamed_files input.code_edits)
files_counted_once_example = files_counted_once input

-- Two files are named, and the edit that names none counts five.
affected_files : (build_overview_metrics input).affected_file_count ≡ 7
unfolding build_overview_metrics affected_file_count deduped_files add_all add contains
affected_files = refl
