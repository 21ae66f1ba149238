-- ===== src/Catalog/Freeze.antt =====
-- The steps of a saga that starts: the assets of each step read from disk and frozen with it
-- (engine/saga_hydrate.py), and the columns that a forward row gets from it
-- (engine/step_materialize.py: _step_create_fields). What the file loaders return is a parameter.
use warden_core.Prelude.{
  ℕ, String, Bool, false, Option, none, some, List, [], ◌∷◌, map, if◌then◌else◌,
}
use warden_core.Json.{Json, str, bool, obj, arr, nil, cons, Fields, end, field, empty_dict, truthy}
use warden_core.Text.{strip, is_blank}
use warden_core.Model.{
  Env, StepKind, OnFailure, StepSpec, SpawnSpec, JoinSpec, TopStep, single, loop as top_loop,
}
use warden_core.Catalog.Checked.{invalid, Checked, ok, refused, ◌>>=◌, each}
use warden_core.Catalog.Parts.{parameter_of, allowed, entries}
use warden_core.Catalog.Steps.{StepInputSpec, Work, reason, commit, StepBlueprint}
use warden_core.Catalog.Sagas.{
  Spawn, Task, spawn, join, NativeStep, Node, step, loop, native, Blueprint, SagaStepRef, SagaStep,
  validate_authoring,
}
use warden_core.Catalog.Tables.{Row, link}

-- PolicyArtifact
pub record PolicyArtifact : Type 0 where
  pub name : String
  pub version : String
  pub cel_source : String

-- What is on disk: the loaders of common/saga_assets.py, common/policy/loader.py, common/prompts.py
-- and common/skills.py, by reference, and the parsers that the registry asks.
pub record Disk : Type 0 where
  pub load_compensation_definition : String → Checked Json
  pub load_output_schema : String → Checked Json
  pub load_policy_artifact : String → Checked PolicyArtifact
  pub freeze_prompt_definition : String → Checked String
  pub load_skill_document : String → String → Checked Json
  pub cel_compiles : String → Bool
  pub jsonpath_compiles : String → Bool
  pub prompt_takes : String → List String → Bool
  pub port_schema_is_supported : Json → Bool

-- `ref is None or not ref.strip()`, or the asset
abbrev pub by_ref {ℓ} : {A : Type ℓ} → (String → Checked A) → Option String → Checked (Option A)
by_ref load none = ok none
by_ref load (some r) = if is_blank r then ok none else do a ← load (strip r); ok (some a)

-- `if value: step_dict[…] = value`
abbrev pub if_truthy : Option Json → Option Json
if_truthy none = none
if_truthy (some j) = if truthy j then some j else none

abbrev pub policy_json : PolicyArtifact → Json
policy_json a = obj (
    field "name" (str a.name)
      (field "version" (str a.version) (field "cel" (str a.cel_source) end)))

-- A step dict with its embedded assets.
pub record FrozenStep : Type 0 where
  pub step : SagaStep
  pub compensation_definition : Option Json
  pub policy_definition : Option Json
  pub output_schema_definition : Option Json
  pub prompt_definition : Option String
  pub skills_definition : Option (List Json)

-- `except (…) as e: raise ValueError(f"Failed to freeze step assets …")`
abbrev pub as_value_error {ℓ} : {A : Type ℓ} → Checked A → Checked A
as_value_error (ok a) = ok a
as_value_error (refused e) = refused (invalid "Failed to freeze step assets")

abbrev pub prompt_of : Work → Option String
prompt_of (reason r) = some r.prompt
prompt_of (commit t) = none

abbrev pub skills_of : Work → List String
skills_of (reason r) = entries r.skills
skills_of (commit t) = []

abbrev pub unless_empty {ℓ} : {A : Type ℓ} → List A → Option (List A)
unless_empty [] = none
unless_empty (x ∷ xs) = some (x ∷ xs)

-- _embed_resolved_assets_on_step_dict, with _embed_reason_prompt_and_skills
unfoldable pub embed_resolved_assets : Disk → SagaStep → Checked FrozenStep
embed_resolved_assets disk s = as_value_error (do
  let c = s.capability
  compensation ← by_ref disk.load_compensation_definition c.compensation
  policy ← by_ref disk.load_policy_artifact c.policy
  schema ← by_ref disk.load_output_schema c.output_schema
  prompt ← by_ref disk.freeze_prompt_definition (prompt_of c.work)
  skills ← each (disk.load_skill_document c.worker) (skills_of c.work)
  ok (record {
    step = s;
    compensation_definition = if_truthy compensation;
    policy_definition = elim policy [ none ↦ none | some a ↦ some (policy_json a) ];
    output_schema_definition = if_truthy schema;
    prompt_definition = prompt;
    skills_definition = unless_empty skills;
  }))

abbrev pub port_fields : StepInputSpec → Fields
port_fields p =
    field "required" (bool p.required)
      (elim p.schema [ none ↦ end | some schema ↦ field "schema" schema end ])

abbrev pub ports_json : List StepInputSpec → Fields
ports_json [] = end
ports_json (p ∷ ps) = field p.key (obj (port_fields p)) (ports_json ps)

abbrev pub kind_of : Work → StepKind
kind_of (reason r) = StepKind.reason
kind_of (commit t) = StepKind.commit

-- The default of CommitSagaStep is 25, as it is for a reason step.
abbrev pub turns_of : Work → ℕ
turns_of (reason r) = r.max_turns
turns_of (commit t) = 25

abbrev pub tools_of : Work → List String
tools_of (reason r) = allowed r.tools
tools_of (commit t) = t.allow

abbrev pub items_json : List Json → Json
items_json [] = arr nil
items_json (x ∷ xs) = elim (items_json xs) [ arr ys ↦ arr (cons x ys) | other ↦ other ]

abbrev pub as_json : Option (List Json) → Option Json
as_json none = none
as_json (some xs) = some (items_json xs)

abbrev pub non_blank : Option String → Option String
non_blank none = none
non_blank (some s) = if is_blank s then none else some s

-- _step_create_fields of a worker step
unfoldable pub worker_step_fields : FrozenStep → StepSpec
worker_step_fields f =
    let s = f.step in
    let c = f.step.capability in
    record {
      step_id = s.id;
      step_name = s.name;
      step_kind = kind_of c.work;
      timeout_seconds = c.timeout_seconds;
      max_turns = turns_of c.work;
      worker = c.worker;
      worker_version = c.worker_version;
      tools_allow = tools_of c.work;
      resources_allow = entries c.resources;
      skills_allow = skills_of c.work;
      skills_definition = as_json f.skills_definition;
      parameters_spec = map parameter_of s.with_spec;
      input_ports = obj (ports_json c.inputs);
      prompt_ref = prompt_of c.work;
      prompt_definition = non_blank f.prompt_definition;
      compensation_definition = f.compensation_definition;
      output_schema = f.output_schema_definition;
      policy_name = c.policy;
      policy_definition = f.policy_definition;
      hitl_required = c.hitl;
      hitl_max_retries = if c.hitl then c.hitl_max_retries else none;
      hitl_retry_guidance = if c.hitl then c.hitl_retry_guidance else none;
      on_failure_strategy = c.on_failure;
      when_cel = s.when;
      spawn = none;
      join = none;
    }

abbrev pub spawn_spec : Spawn → SpawnSpec
spawn_spec s = record {
  saga_name = s.saga_name;
  saga_version = s.saga_version;
  items_from = s.items_from;
  item_var = s.item_var;
  max_children = s.max_children;
  result_from = s.result_from;
  input = map parameter_of s.input;
}

abbrev pub task_kind : Task → StepKind
task_kind (spawn s) = StepKind.spawn_sagas
task_kind (join j) = StepKind.join_sagas

abbrev pub task_spawn : Task → Option SpawnSpec
task_spawn (spawn s) = some (spawn_spec s)
task_spawn (join j) = none

abbrev pub task_join : Task → Option JoinSpec
task_join (spawn s) = none
task_join (join j) = some j

-- _step_create_fields of an engine-native step
unfoldable pub native_step_fields : NativeStep → StepSpec
native_step_fields n = record {
  step_id = n.id;
  step_name = n.name;
  step_kind = task_kind n.task;
  timeout_seconds = n.timeout_seconds;
  max_turns = 25;
  worker = "";
  worker_version = "0.0.0";
  tools_allow = [];
  resources_allow = [];
  skills_allow = [];
  skills_definition = none;
  parameters_spec = [];
  input_ports = empty_dict;
  prompt_ref = none;
  prompt_definition = none;
  compensation_definition = none;
  output_schema = none;
  policy_name = none;
  policy_definition = none;
  hitl_required = false;
  hitl_max_retries = none;
  hitl_retry_guidance = none;
  on_failure_strategy = OnFailure.auto_compensate;
  when_cel = n.when;
  spawn = task_spawn n.task;
  join = task_join n.task;
}

module _ (disk : Disk) where
  unfoldable pub frozen_spec : SagaStep → Checked StepSpec
  frozen_spec s = do f ← embed_resolved_assets disk s; ok (worker_step_fields f)

  -- One node of embed_resolved_step_assets.
  unfoldable pub freeze_node : Node SagaStep → Checked TopStep
  freeze_node (step s) = do spec ← frozen_spec s; ok (single spec)
  freeze_node (loop l) = do
    body ← each frozen_spec l.steps
    ok (
        top_loop (record {
          loop_id = l.id;
          max_iterations = l.max_iterations;
          until_cel = l.until;
          body = body;
        }))
  freeze_node (native n) = ok (single (native_step_fields n))

  -- hydrate_authoring_body_to_frozen_steps, of the row of a saga definition
  unfoldable pub hydrate_to_frozen_steps :
      Env → List (Row StepBlueprint) → Row (Blueprint SagaStepRef) → Checked (List TopStep)
  hydrate_to_frozen_steps env rows d = do
    authoring ←
        validate_authoring disk.jsonpath_compiles (record d.body { namespace = d.namespace })
    hydrated ← link env disk.jsonpath_compiles rows d.namespace authoring
    each freeze_node hydrated.steps
