-- ===== src/Catalog/Steps.antt =====
-- common/schemas/step.py: a step of the catalog, its validators, and the capability that a saga's step
-- takes over from it.
use warden_core.Prelude.{
  ℕ, String, Bool, true, not, ◌&&◌, ◌||◌, Option, none, some, List, map, is_some, get_or, leb,
  length, if◌then◌else◌,
}
use warden_core.Json.{Json}
use warden_core.Model.{OnFailure}
use warden_core.Text.{codes, strip, is_blank}
use warden_core.Catalog.Checked.{
  Checked, ok, ◌>>=◌, ◌>>◌, demand, each, each_some, all, is_in, distinct,
}
use warden_core.Catalog.Parts.{
  non_empty, in_range, ToolsSpec, bind_keys_non_empty_unique, skill_name_non_empty,
  StepFactsExtractor, valid_extractor, AgentAdapter, is_simple, allowed, bound, entries,
  simple_agent_adapter_constraints, validate_exactly_one_tool,
}

-- StepInputSpec with its key
pub record StepInputSpec : Type 0 where
  pub key : String
  pub required : Bool
  pub schema : Option Json

-- The fields of a reason step, and what a step does.
pub record ReasonFields : Type 0 where
  pub prompt : String
  pub agent_adapter : AgentAdapter
  pub max_turns : ℕ
  pub max_step_tokens : Option ℕ
  pub max_completion_tokens : Option ℕ
  pub tools : Option ToolsSpec
  pub skills : Option (List String)
  pub facts : Option (List StepFactsExtractor)

pub data Work : Type 0 where
  reason : ReasonFields → Work
  commit : ToolsSpec → Work

-- ReasonStepBlueprint and CommitStepBlueprint
pub record StepBlueprint : Type 0 where
  pub name : String
  pub namespace : String
  pub version : String
  pub title : Option String
  pub inputs : List StepInputSpec
  pub worker : String
  pub worker_version : String
  pub compensation : Option String
  pub timeout_seconds : ℕ
  pub output_schema : Option String
  pub policy : Option String
  pub hitl : Bool
  pub hitl_max_retries : Option ℕ
  pub hitl_retry_guidance : Option String
  pub resources : Option (List String)
  pub on_failure : Option OnFailure
  pub work : Work

abbrev pub keys_of : List StepInputSpec → List String
keys_of = map (λ p. p.key)

abbrev pub is_short : Option String → Bool
is_short none = true
is_short (some s) = leb (length (codes s)) 4096

-- hitl_retry_fields_require_hitl
abbrev pub hitl_retry_fields_fit : Bool → Option ℕ → Option String → Bool
hitl_retry_fields_fit hitl retries guidance = hitl || not (is_some retries || is_some guidance)

-- the limits of max_turns, max_step_tokens and max_completion_tokens
abbrev pub limits_fit : ReasonFields → Bool
limits_fit r =
    in_range 1 (some 200) (some r.max_turns)
    && in_range 1 none r.max_step_tokens
    && in_range 1 none r.max_completion_tokens

-- the field validators of a step's tools, skills and facts
unfoldable pub valid_work : Work → Checked Work
valid_work (reason r) = do
  demand (limits_fit r) "max_turns and token limits must be in range"
  tools ← each_some bind_keys_non_empty_unique r.tools
  skills ← each_some (each skill_name_non_empty) r.skills
  facts ← each_some (each valid_extractor) r.facts
  ok (reason (record r { tools = tools; skills = skills; facts = facts }))
valid_work (commit t) = do tools ← bind_keys_non_empty_unique t; ok (commit tools)

-- The model validators of a reason or commit step; `keys` are the arguments that it may bind: the
-- inputs of a catalog step (validate_reason_capability), the `with` keys of a saga's step.
unfoldable pub assert_work : List String → Work → Checked (Unit {0})
unfolding validate_exactly_one_tool simple_agent_adapter_constraints
assert_work keys (reason r) = do
  demand (not (is_blank r.prompt)) "reason steps require a non-empty prompt"
  demand (distinct (map (λ f. f.into) (entries r.facts)))
      "facts extractors must have unique 'into' keys per step"
  demand (not (is_in (allowed r.tools) "load_skill"))
      "tools.allow must not include reserved virtual tool name 'load_skill'"
  demand (all (is_in keys) (bound r.tools)) "tools.bind keys must also be declared"
  ok tt
assert_work keys (commit t) = validate_exactly_one_tool t

-- The rest of validate_reason_capability, which depends on the resources: _assert_simple_adapter_ok.
unfoldable pub assert_adapter : Option (List String) → Work → Checked (Unit {0})
unfolding simple_agent_adapter_constraints
assert_adapter resources (reason r) =
    if is_simple r.agent_adapter
    then simple_agent_adapter_constraints r.tools resources r.skills r.facts
    else ok tt
assert_adapter resources (commit t) = ok tt

-- parse_step_blueprint: the validators of a catalog step
unfoldable pub parse_step_blueprint : StepBlueprint → Checked StepBlueprint
parse_step_blueprint b = do
  name ← non_empty "must be non-empty" b.name
  version ← non_empty "must be non-empty" b.version
  worker ← non_empty "must be non-empty" b.worker
  worker_version ← non_empty "must be non-empty" b.worker_version
  demand (all (λ k. not (is_blank k)) (keys_of b.inputs)) "inputs keys must be non-empty"
  demand (is_short b.hitl_retry_guidance) "hitl_retry_guidance is too long"
  work ← valid_work b.work
  demand (hitl_retry_fields_fit b.hitl b.hitl_max_retries b.hitl_retry_guidance)
      "hitl_max_retries and hitl_retry_guidance require hitl: true"
  assert_work (keys_of b.inputs) work
  assert_adapter b.resources work
  ok (record b {
    name = name;
    version = version;
    worker = worker;
    worker_version = worker_version;
    work = work;
  })

-- display_title
unfoldable pub display_title : StepBlueprint → String
display_title b = elim b.title [ none ↦ b.name | some t ↦ if is_blank t then b.name else strip t ]

-- The capability of a hydrated step: the fields that to_capability_dict hands over.
pub record Capability : Type 0 where
  pub worker : String
  pub worker_version : String
  pub timeout_seconds : ℕ
  pub hitl : Bool
  pub step_definition_name : String
  pub step_definition_version : String
  pub inputs : List StepInputSpec
  pub compensation : Option String
  pub output_schema : Option String
  pub policy : Option String
  pub hitl_max_retries : Option ℕ
  pub hitl_retry_guidance : Option String
  pub resources : Option (List String)
  pub on_failure : OnFailure
  pub work : Work

-- to_capability_dict
unfoldable pub to_capability : StepBlueprint → Capability
to_capability b = record {
  worker = b.worker;
  worker_version = b.worker_version;
  timeout_seconds = b.timeout_seconds;
  hitl = b.hitl;
  step_definition_name = b.name;
  step_definition_version = b.version;
  inputs = b.inputs;
  compensation = b.compensation;
  output_schema = b.output_schema;
  policy = b.policy;
  hitl_max_retries = b.hitl_max_retries;
  hitl_retry_guidance = b.hitl_retry_guidance;
  resources = b.resources;
  on_failure = get_or b.on_failure OnFailure.auto_compensate;
  work = b.work;
}
