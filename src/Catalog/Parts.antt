-- ===== src/Catalog/Parts.antt =====
-- The parts that steps of manifests share, with their validators (common/schemas/saga.py). Of a tool
-- and a resource the name and the URI are kept.
use warden_core.Prelude.{
  ℕ, String, Bool, true, false, not, ◌&&◌, Option, none, some, List, [], ◌∷◌, ◌==◌, is_some, leb,
  if◌then◌else◌,
}
use warden_core.Json.{Json, null}
use warden_core.Model.{from_path, literal, Parameter}
use warden_core.Text.{codes, strip, is_blank, is_prefix}
use warden_core.Catalog.Checked.{Checked, ok, ◌>>=◌, ◌>>◌, demand, each, all, distinct}

abbrev pub starts_at_root : String → Bool
starts_at_root path = is_prefix (codes "$") (codes path)

-- StepParameterSpec with its key in the `with` map; `value` is none where it is left out or null.
pub record StepParameterSpec : Type 0 where
  pub key : String
  pub from : Option String
  pub value : Option Json

abbrev pub is_json_path : Option String → Bool
is_json_path none = true
is_json_path (some p) = starts_at_root p

-- exactly_one_of_from_or_value
unfoldable pub exactly_one_of_from_or_value : StepParameterSpec → Checked StepParameterSpec
unfolding is_prefix
exactly_one_of_from_or_value p = do
  demand (if is_some p.from then not (is_some p.value) else is_some p.value)
      "Exactly one of 'from' or 'value' is required"
  demand (is_json_path p.from) "'from' must be a JSONPath starting with '$'"
  ok p

-- What resolve_parameters_spec reads of a frozen entry.
abbrev pub parameter_of : StepParameterSpec → Parameter
parameter_of p = record {
  key = p.key;
  binding = elim p.from [
    | some path ↦ from_path path
    | none ↦ literal (elim p.value [ some v ↦ v | none ↦ null ])
  ];
}

-- `stripped = v.strip(); if not stripped: raise …; return stripped`
unfoldable pub non_empty : String → String → Checked String
non_empty message v = do demand (not (is_blank v)) message; ok (strip v)

-- `Field(ge=low, le=high)` of an integer that may be null
abbrev pub in_range : ℕ → Option ℕ → Option ℕ → Bool
in_range low high none = true
in_range low none (some n) = leb low n
in_range low (some high) (some n) = leb low n && leb n high

-- ToolsSpec
pub record ToolsSpec : Type 0 where
  pub allow : List String
  pub bind : List String

-- bind_keys_non_empty_unique
unfoldable pub bind_keys_non_empty_unique : ToolsSpec → Checked ToolsSpec
bind_keys_non_empty_unique t = do
  keys ← each (non_empty "tools.bind entries must be non-empty") t.bind
  demand (distinct keys) "tools.bind contains duplicate key"
  ok (record t { bind = keys })

-- skill_name_non_empty
unfoldable pub skill_name_non_empty : String → Checked String
skill_name_non_empty v = do
  name ← non_empty "skill name must be non-empty" v
  demand (not (name == "load_skill")) "skill name 'load_skill' is reserved"
  ok name

-- StepFactsExtractor
pub record FactField : Type 0 where
  pub key : String
  pub path : String

pub record StepFactsExtractor : Type 0 where
  pub tool : String
  pub into : String
  pub fields : List FactField

abbrev pub is_empty {ℓ} : {A : Type ℓ} → List A → Bool
is_empty [] = true
is_empty (x ∷ xs) = false

-- non_empty_identifier and fields_non_empty_and_jsonpath
unfoldable pub valid_extractor : StepFactsExtractor → Checked StepFactsExtractor
unfolding is_prefix strip
valid_extractor f = do
  tool ← non_empty "tool and into must be non-empty" f.tool
  into ← non_empty "tool and into must be non-empty" f.into
  demand (not (is_empty f.fields)) "facts.fields must contain at least one JSONPath mapping"
  demand (all (λ x. not (is_blank x.key) && starts_at_root (strip x.path)) f.fields)
      "facts.fields must map non-empty keys to JSONPaths starting with '$'"
  ok (record f { tool = tool; into = into })

pub data AgentAdapter : Type 0 where
  react simple : AgentAdapter

abbrev pub is_simple : AgentAdapter → Bool
is_simple simple = true
is_simple react = false

abbrev pub allowed : Option ToolsSpec → List String
allowed none = []
allowed (some t) = t.allow

abbrev pub bound : Option ToolsSpec → List String
bound none = []
bound (some t) = t.bind

abbrev pub entries {ℓ} : {A : Type ℓ} → Option (List A) → List A
entries none = []
entries (some xs) = xs

-- simple_agent_adapter_constraints
unfoldable pub simple_agent_adapter_constraints :
    Option ToolsSpec
    → Option (List String)
    → Option (List String)
    → Option (List StepFactsExtractor)
    → Checked (Unit {0})
simple_agent_adapter_constraints tools resources skills facts = do
  demand (is_empty (allowed tools)) "simple agent-adapter requires an empty tools.allow"
  demand (is_empty (bound tools)) "simple agent-adapter does not support tools.bind"
  demand (is_empty (entries resources)) "simple agent-adapter requires an empty resources.allow"
  demand (is_empty (entries skills)) "simple agent-adapter requires an empty skills.allow"
  demand (is_empty (entries facts))
      "facts require tool results; incompatible with simple agent-adapter"

abbrev pub is_single_tool : List String → Bool
is_single_tool (t ∷ []) = not (t == "load_skill")
is_single_tool _ = false

-- validate_exactly_one_tool of CommitSagaStep, and validate_commit_capability of CommitStepBlueprint
unfoldable pub validate_exactly_one_tool : ToolsSpec → Checked (Unit {0})
validate_exactly_one_tool t = do
  demand (is_single_tool t.allow) "commit steps require exactly one tool in tools.allow"
  demand (is_empty t.bind) "tools.bind is not supported on commit steps"
