-- ===== src/Catalog/Hydrate.antt =====
-- common/step_hydrate.py: the references of a saga resolved to steps of the catalog.
use warden_core.Prelude.{
  String, Bool, true, not, ◌||◌, Option, none, some, List, map, ◌==◌, is_some, find_first,
  if◌then◌else◌,
}
use warden_core.Json.{null}
use warden_core.Text.{strip, is_blank}
use warden_core.Model.{Env}
use warden_core.Catalog.Checked.{Checked, ok, ◌>>=◌, ◌>>◌, demand, each, all, is_in}
use warden_core.Catalog.Parts.{StepParameterSpec}
use warden_core.Catalog.Steps.{
  StepInputSpec, StepBlueprint, keys_of, display_title, to_capability, assert_work, assert_adapter,
  valid_work, hitl_retry_fields_fit, is_short,
}
use warden_core.Catalog.Tighten.{apply_tighten_overrides}
use warden_core.Catalog.Sagas.{
  Node, step, loop, native, Blueprint, SagaStepRef, SagaStep, validate_hydrated,
}

abbrev pub with_keys : List StepParameterSpec → List String
with_keys = map (λ p. p.key)

abbrev pub port_named : List StepInputSpec → String → Option StepInputSpec
port_named inputs k = find_first (λ p. p.key == k) inputs

-- One literal against the schema of its port; a JSONPath, an unknown key and a port without a schema
-- are not checked here.
unfoldable pub literal_fits : Env → List StepInputSpec → StepParameterSpec → Bool
literal_fits env inputs p = elim (port_named inputs p.key) [
  | none ↦ true
  | some port ↦ elim port.schema [
    | none ↦ true
    | some schema ↦ elim p.from [
      | some path ↦ true
      | none ↦ not (is_some (env.schema_error (elim p.value [ some v ↦ v | none ↦ null ]) schema))
    ]
  ]
]

-- validate_with_against_inputs
unfoldable pub validate_with_against_inputs :
    Env → List StepParameterSpec → List StepInputSpec → Checked (Unit {0})
validate_with_against_inputs env with_spec inputs = do
  demand (all (is_in (keys_of inputs)) (with_keys with_spec))
      "with keys are not declared inputs on the step definition"
  demand (all (λ p. not p.required || is_in (with_keys with_spec) p.key) inputs)
      "missing required inputs"
  demand (all (literal_fits env inputs) with_spec) "literal failed schema validation"

-- `ReasonSagaStep.model_validate(payload)` and `CommitSagaStep.model_validate(payload)`
unfoldable pub validate_saga_step : SagaStep → Checked SagaStep
validate_saga_step s = do
  let c = s.capability
  demand (is_short c.hitl_retry_guidance) "hitl_retry_guidance is too long"
  work ← valid_work c.work
  demand (hitl_retry_fields_fit c.hitl c.hitl_max_retries c.hitl_retry_guidance)
      "hitl_max_retries and hitl_retry_guidance require hitl: true"
  assert_work (with_keys s.with_spec) work
  assert_adapter c.resources work
  ok (record s { capability = record c { work = work } })

-- `ref.name.strip() if ref.name and ref.name.strip() else step_def.display_title()`
abbrev pub step_name : Option String → StepBlueprint → String
step_name none b = display_title b
step_name (some n) b = if is_blank n then display_title b else strip n

-- hydrate_step_ref
unfoldable pub hydrate_step_ref : Env → SagaStepRef → StepBlueprint → Checked SagaStep
hydrate_step_ref env r b = do
  validate_with_against_inputs env r.with_spec b.inputs
  capability ← apply_tighten_overrides r.overrides (to_capability b)
  validate_saga_step (record {
    id = r.id;
    name = step_name r.name b;
    with_spec = r.with_spec;
    when = r.when;
    capability = capability;
  })

module _ (env : Env) (resolve_step : String → String → Checked StepBlueprint) where
  unfoldable pub resolved_step : SagaStepRef → Checked SagaStep
  resolved_step r = do b ← resolve_step r.use_name r.version; hydrate_step_ref env r b

  -- _hydrate_authoring_node
  unfoldable pub hydrate_authoring_node : Node SagaStepRef → Checked (Node SagaStep)
  hydrate_authoring_node (step r) = do s ← resolved_step r; ok (step s)
  hydrate_authoring_node (loop l) = do
    body ← each resolved_step l.steps
    ok (
        loop (record {
          id = l.id;
          name = l.name;
          max_iterations = l.max_iterations;
          until = l.until;
          steps = body;
        }))
  hydrate_authoring_node (native n) = ok (native n)

  -- hydrate_authoring_blueprint
  unfoldable pub hydrate_authoring_blueprint :
      (String → Bool) → Blueprint SagaStepRef → Checked (Blueprint SagaStep)
  hydrate_authoring_blueprint compiles b = do
    steps ← each hydrate_authoring_node b.steps
    validate_hydrated compiles (record {
      name = b.name;
      namespace = b.namespace;
      version = b.version;
      description = b.description;
      steps = steps;
    })
