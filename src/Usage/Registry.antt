-- ===== src/Usage/Registry.antt =====
-- packages/event-schema/src/usage.ts and sources.ts: what a source's counts mean.
use agent_metrics.Prelude.{
  String, Bool, Option, none, some, List, [], ◌∷◌, ◌||◌, is_some, if◌then◌else◌,
}
use agent_metrics.Prelude.Texts.{◌=s◌, contains}

pub data InputTokenSemantics : Type 0 where
  delta gross : InputTokenSemantics

pub data UsageMeasurement : Type 0 where
  increment session_context_snapshot : UsageMeasurement

pub record SourceSemantics : Type 0 where
  pub input_token_semantics : InputTokenSemantics
  pub usage_measurement : UsageMeasurement

abbrev entry : InputTokenSemantics → UsageMeasurement → SourceSemantics
entry s m = record { input_token_semantics = s; usage_measurement = m }

-- The sources whose input is gross, and those whose input is a delta.
abbrev gross_sources : List String
gross_sources =
    "opencode-message" ∷ "opencode-step-finish" ∷ "codex-rollout" ∷ "codex-logs" ∷ "workbuddy-usage"
    ∷ "codebuddy-log" ∷ []

abbrev delta_sources : List String
delta_sources =
    "claude-transcript" ∷ "kimicode-usage" ∷ "dsh-usage" ∷ "cursor-generation" ∷ "cursor-official"
    ∷ []

-- `USAGE_SOURCE_SEMANTICS`, as a lookup of an own key.
unfoldable pub usage_source_semantics : String → Option SourceSemantics
usage_source_semantics source =
    if contains gross_sources source
    then some (entry InputTokenSemantics.gross UsageMeasurement.increment)
    else if contains delta_sources source
    then some (entry InputTokenSemantics.delta UsageMeasurement.increment)
    else if source =s "cursor-composer-context"
    then some (entry InputTokenSemantics.delta UsageMeasurement.session_context_snapshot)
    else none

-- The names that every object has from its prototype, which the operator `in` finds too.
abbrev inherited_names : List String
inherited_names =
    "constructor" ∷ "hasOwnProperty" ∷ "isPrototypeOf" ∷ "propertyIsEnumerable" ∷ "toLocaleString"
    ∷ "toString" ∷ "valueOf" ∷ "__proto__" ∷ "__defineGetter__" ∷ "__defineSetter__"
    ∷ "__lookupGetter__" ∷ "__lookupSetter__" ∷ []

-- `source in USAGE_SOURCE_REGISTRY`
unfoldable pub in_registry : String → Bool
in_registry source = is_some (usage_source_semantics source) || contains inherited_names source
