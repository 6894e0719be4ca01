-- ===== src/Usage/Overview.antt =====
-- `buildOverviewMetrics` of packages/metrics-engine/src/index.ts.
use agent_metrics.Prelude.{
  ℕ, ◌+◌, String, Option, List, [], ◌∷◌, ltb, ◌==◌, if◌then◌else◌, length, filter, sum_by, or_else,
}
use agent_metrics.Prelude.Texts.{◌=s◌, add}
use agent_metrics.Usage.Tokens.{
  TokenUsageRow, is_additive_usage, resolve_displayed_input_tokens, resolve_total_tokens,
}

pub record ToolRow : Type 0 where
  pub status : String

pub record CodeEditRow : Type 0 where
  pub files_changed : List String
  pub file_count : ℕ
  pub insertions : ℕ
  pub deletions : ℕ
  pub edit_operation_count : ℕ

pub record ToolExecutionCounts : Type 0 where
  pub successful_executions : ℕ
  pub failed_executions : ℕ
  pub started_only_executions : ℕ

-- The quotient of two counts, which the source computes in floating point.
pub record Ratio : Type 0 where
  pub numerator : ℕ
  pub denominator : ℕ

-- Of sessions, prompts and responses only their number matters: they are lists of ids.
pub record OverviewInput : Type 0 where
  pub sessions : List String
  pub tool_events : List ToolRow
  pub tool_counts : Option ToolExecutionCounts
  pub prompts : List String
  pub responses : List String
  pub token_usage : List TokenUsageRow
  pub code_edits : List CodeEditRow

pub record OverviewMetrics : Type 0 where
  pub session_count : ℕ
  pub total_tool_calls : ℕ
  pub successful_executions : ℕ
  pub failed_executions : ℕ
  pub started_only_executions : ℕ
  pub success_rate : Ratio
  pub edit_operation_count : ℕ
  pub turn_count : ℕ
  pub response_count : ℕ
  pub total_tokens : ℕ
  pub input_tokens : ℕ
  pub output_tokens : ℕ
  pub cache_read_tokens : ℕ
  pub cache_creation_tokens : ℕ
  pub affected_file_count : ℕ
  pub insertions : ℕ
  pub deletions : ℕ

abbrev count_status : String → List ToolRow → ℕ
count_status status rows = length (filter (λ row. row.status =s status) rows)

-- `input.toolCounts`, or what the tool events add up to.
unfoldable pub executions : OverviewInput → ToolExecutionCounts
executions input = or_else input.tool_counts (record {
  successful_executions = count_status "succeeded" input.tool_events;
  failed_executions = count_status "failed" input.tool_events;
  started_only_executions = count_status "started" input.tool_events;
})

-- `for (const filePath of row.files_changed) dedupedFiles.add(filePath)`
unfoldable pub add_all : List String → List String → List String
add_all seen [] = seen
add_all seen (path ∷ paths) = add_all (add seen path) paths

-- The set `dedupedFiles` after the loop over the edits.
unfoldable pub deduped_files : List String → List CodeEditRow → List String
deduped_files seen [] = seen
deduped_files seen (row ∷ rows) = deduped_files (add_all seen row.files_changed) rows

-- `fallbackAffectedFileCount`: an edit that names no file counts by its own number.
abbrev pub fallback_count : CodeEditRow → ℕ
fallback_count row = if ltb 0 (length row.files_changed) then 0 else row.file_count

unfoldable pub affected_file_count : List CodeEditRow → ℕ
affected_file_count edits = length (deduped_files [] edits) + sum_by fallback_count edits

unfoldable pub build_overview_metrics : OverviewInput → OverviewMetrics
build_overview_metrics input =
    let counts = executions input in
    let total_tool_calls = counts.successful_executions + counts.failed_executions in
    let additive = filter is_additive_usage input.token_usage in
    record {
      session_count = length input.sessions;
      total_tool_calls = total_tool_calls;
      successful_executions = counts.successful_executions;
      failed_executions = counts.failed_executions;
      started_only_executions = counts.started_only_executions;
      success_rate =
          if total_tool_calls == 0
          then record { numerator = 0; denominator = 1 }
          else record { numerator = counts.successful_executions; denominator = total_tool_calls };
      edit_operation_count = sum_by (λ row. row.edit_operation_count) input.code_edits;
      turn_count = length input.prompts;
      response_count = length input.responses;
      total_tokens = sum_by resolve_total_tokens additive;
      input_tokens = sum_by resolve_displayed_input_tokens additive;
      output_tokens = sum_by (λ row. row.output_tokens) additive;
      cache_read_tokens = sum_by (λ row. row.cache_read_input_tokens) additive;
      cache_creation_tokens = sum_by (λ row. row.cache_creation_input_tokens) additive;
      affected_file_count = affected_file_count input.code_edits;
      insertions = sum_by (λ row. row.insertions) input.code_edits;
      deletions = sum_by (λ row. row.deletions) input.code_edits;
    }
