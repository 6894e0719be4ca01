-- ===== src/Usage/Tokens.antt =====
-- Lines 62 to 249 of packages/metrics-engine/src/index.ts: the counts of one row.
use agent_metrics.Prelude.{
  ℕ, ◌+◌, ◌-◌, String, Bool, true, false, not, ◌&&◌, Option, none, some, List, [], ◌∷◌, ltb,
  if◌then◌else◌,
}
use agent_metrics.Prelude.Texts.{◌=s◌, contains}
use agent_metrics.Usage.Registry.{
  InputTokenSemantics, UsageMeasurement, usage_source_semantics, in_registry,
}

-- What is read from an object: `null`, `undefined`, or a value.
pub data Read (A : Type 0) : Type 0 where
  null undefined : Read A
  value : A → Read A

-- A semantics or a measurement that is `undefined` comes from a name that the registry inherits.
pub record NormalizedUsage : Type 0 where
  pub input_token_semantics : Option InputTokenSemantics
  pub input_tokens : ℕ
  pub output_tokens : ℕ
  pub cache_creation_input_tokens : ℕ
  pub cache_read_input_tokens : ℕ
  pub usage_measurement : Option UsageMeasurement

-- A row as the queries select it; `none` is `null` and `undefined`.
pub record TokenUsageRow : Type 0 where
  pub input_tokens : ℕ
  pub output_tokens : ℕ
  pub cache_creation_input_tokens : ℕ
  pub cache_read_input_tokens : ℕ
  pub source_vendor : Option String
  pub usage_source : Option String
  pub input_token_semantics : Option String
  pub usage_measurement : Option String

abbrev pub says : Option String → String → Bool
says none text = false
says (some t) text = t =s text

abbrev semantics_of_source : Option String → Read InputTokenSemantics
semantics_of_source none = null
semantics_of_source (some source) =
    if in_registry source
    then elim (usage_source_semantics source) [
      | none ↦ undefined
      | some e ↦ value e.input_token_semantics
    ]
    else null

unfoldable pub resolve_semantics : TokenUsageRow → Read InputTokenSemantics
resolve_semantics row =
    if says row.input_token_semantics "delta"
    then value InputTokenSemantics.delta
    else if says row.input_token_semantics "gross"
    then value InputTokenSemantics.gross
    else semantics_of_source row.usage_source

abbrev measurement_of_source : Option String → Read UsageMeasurement
measurement_of_source none = null
measurement_of_source (some source) =
    if in_registry source
    then elim (usage_source_semantics source) [
      | none ↦ undefined
      | some e ↦ value e.usage_measurement
    ]
    else null

unfoldable pub resolve_measurement : TokenUsageRow → Read UsageMeasurement
resolve_measurement row =
    if says row.usage_measurement "increment"
    then value UsageMeasurement.increment
    else if says row.usage_measurement "session-context-snapshot"
    then value UsageMeasurement.session_context_snapshot
    else measurement_of_source row.usage_source

-- `none` is `null`; what is there may be `undefined`.
abbrev pub present : {A : Type 0} → Read A → Option (Option A)
present null = none
present undefined = some none
present (value a) = some (some a)

unfoldable pub to_normalized_usage : TokenUsageRow → Option NormalizedUsage
to_normalized_usage row = elim (present (resolve_semantics row)) [
  | none ↦ none
  | some semantics ↦ elim (present (resolve_measurement row)) [
    | none ↦ none
    | some measurement ↦ some (record {
      input_token_semantics = semantics;
      input_tokens = row.input_tokens;
      output_tokens = row.output_tokens;
      cache_creation_input_tokens = row.cache_creation_input_tokens;
      cache_read_input_tokens = row.cache_read_input_tokens;
      usage_measurement = measurement;
    })
  ]
]

-- `usage.inputTokenSemantics === "delta"`
abbrev pub is_delta : Option InputTokenSemantics → Bool
is_delta (some InputTokenSemantics.delta) = true
is_delta _ = false

-- `none` is the throw of `InvalidUsageError`.
unfoldable pub displayed_input_tokens : NormalizedUsage → Option ℕ
displayed_input_tokens usage =
    if is_delta usage.input_token_semantics
    then some usage.input_tokens
    else if ltb usage.input_tokens usage.cache_read_input_tokens
    then none
    else some (usage.input_tokens - usage.cache_read_input_tokens)

unfoldable pub total_tokens : NormalizedUsage → Option ℕ
total_tokens usage = elim (displayed_input_tokens usage) [
  | none ↦ none
  | some shown ↦ some (
      shown + usage.output_tokens + usage.cache_read_input_tokens
      + usage.cache_creation_input_tokens)
]

abbrev pub legacy_gross_vendors : List String
legacy_gross_vendors = "codex" ∷ "opencode" ∷ "zcode" ∷ "mimo" ∷ "workbuddy" ∷ []

abbrev pub is_legacy_gross : Option String → Bool
is_legacy_gross none = false
is_legacy_gross (some vendor) = not (vendor =s "") && contains legacy_gross_vendors vendor

-- The part of `resolveDisplayedInputTokens` for rows without usable semantics. The difference of
-- natural numbers stops at 0, which is the source's `Math.max(0, ...)`.
abbrev pub legacy_displayed : TokenUsageRow → ℕ
legacy_displayed row =
    if is_legacy_gross row.source_vendor
    then row.input_tokens - row.cache_read_input_tokens
    else row.input_tokens

unfoldable pub resolve_displayed_input_tokens : TokenUsageRow → ℕ
resolve_displayed_input_tokens row = elim (to_normalized_usage row) [
  | none ↦ legacy_displayed row
  | some usage ↦ elim (displayed_input_tokens usage) [
    | none ↦ legacy_displayed row
    | some shown ↦ shown
  ]
]

unfoldable pub resolve_total_tokens : TokenUsageRow → ℕ
resolve_total_tokens row =
    resolve_displayed_input_tokens row
    + row.output_tokens
    + row.cache_read_input_tokens
    + row.cache_creation_input_tokens

unfoldable pub is_additive_usage : TokenUsageRow → Bool
is_additive_usage row =
    if says row.usage_measurement "session-context-snapshot"
    then false
    else if says row.usage_source "cursor-composer-context"
    then false
    else true
