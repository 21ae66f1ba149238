-- ===== src/Catalog/Sagas.antt =====
-- common/schemas/saga.py: the blueprint of a saga, as its author writes it (with references to catalog
-- steps) and as it runs (with the steps themselves), and the validators of both.
use warden_core.Prelude.{
  ℕ, String, Bool, true, not, ◌&&◌, Option, none, some, List, [], ◌∷◌, ◌++◌, map, leb,
}
use warden_core.Text.{strip, is_prefix}
use warden_core.Model.{JoinSpec}
use warden_core.Catalog.Checked.{
  Checked, ok, ◌>>=◌, ◌>>◌, demand, each, each_some, all, is_in, distinct,
}
use warden_core.Catalog.Parts.{
  StepParameterSpec, exactly_one_of_from_or_value, starts_at_root, non_empty, in_range, is_empty,
}
use warden_core.Catalog.Steps.{Capability, is_short}
use warden_core.Catalog.Tighten.{Overrides}

-- SpawnSpec
pub record Spawn : Type 0 where
  pub saga_name : String
  pub saga_version : String
  pub items_from : String
  pub item_var : String
  pub result_from : String
  pub max_children : Option ℕ
  pub input : List StepParameterSpec

-- SpawnSagasStep and JoinSagasStep
pub data Task : Type 0 where
  spawn : Spawn → Task
  join : JoinSpec → Task

pub record NativeStep : Type 0 where
  pub id : String
  pub name : String
  pub timeout_seconds : ℕ
  pub when : Option String
  pub task : Task

-- LoopAuthoringStep and LoopSagaStep
pub record Loop (A : Type 0) : Type 0 where
  pub id : String
  pub name : Option String
  pub max_iterations : ℕ
  pub until : String
  pub steps : List A

-- AuthoringTopLevelStep and TopLevelSagaStep: the nodes over references, and over steps
pub data Node (A : Type 0) : Type 0 where
  step : A → Node A
  loop : Loop A → Node A
  native : NativeStep → Node A

-- SagaAuthoringBlueprint and HydratedSagaBlueprint
pub record Blueprint (A : Type 0) : Type 0 where
  pub name : String
  pub namespace : String
  pub version : String
  pub description : String
  pub steps : List (Node A)

pub record SagaStepRef : Type 0 where
  pub id : String
  pub name : Option String
  pub use_name : String
  pub version : String
  pub with_spec : List StepParameterSpec
  pub when : Option String
  pub overrides : Overrides

-- ReasonSagaStep and CommitSagaStep
pub record SagaStep : Type 0 where
  pub id : String
  pub name : String
  pub with_spec : List StepParameterSpec
  pub when : Option String
  pub capability : Capability

-- jsonpath_must_start_with_dollar
unfoldable pub jsonpath_must_start_with_dollar : String → Checked String
unfolding is_prefix strip
jsonpath_must_start_with_dollar v = do
  demand (starts_at_root (strip v)) "JSONPath must start with '$'"
  ok (strip v)

-- the field validators of SpawnSpec
unfoldable pub valid_spawn : Spawn → Checked Spawn
valid_spawn s = do
  name ← non_empty "saga_name and saga_version must be non-empty" s.saga_name
  version ← non_empty "saga_name and saga_version must be non-empty" s.saga_version
  items_from ← jsonpath_must_start_with_dollar s.items_from
  item_var ← non_empty "item_var must be non-empty" s.item_var
  result_from ← jsonpath_must_start_with_dollar s.result_from
  demand (in_range 1 (some 16) s.max_children) "max_children must be between 1 and 16"
  input ← each exactly_one_of_from_or_value s.input
  ok (record {
    saga_name = name;
    saga_version = version;
    items_from = items_from;
    item_var = item_var;
    result_from = result_from;
    max_children = s.max_children;
    input = input;
  })

unfoldable pub valid_task : Task → Checked Task
valid_task (spawn s) = do valid ← valid_spawn s; ok (spawn valid)
valid_task (join j) = do
  target ← non_empty "spawn_step_id must be non-empty" j.spawn_step_id
  ok (join (record j { spawn_step_id = target }))

unfoldable pub valid_native : NativeStep → Checked NativeStep
valid_native n = do
  when ← each_some (non_empty "when.cel must be non-empty") n.when
  task ← valid_task n.task
  ok (record n { when = when; task = task })

abbrev pub overrides_fit : Overrides → Bool
overrides_fit o =
    is_short o.hitl_retry_guidance
    && in_range 1 none o.timeout_seconds
    && in_range 1 (some 200) o.max_turns
    && in_range 1 none o.max_step_tokens
    && in_range 1 none o.max_completion_tokens

-- the field validators of SagaStepRef
unfoldable pub valid_ref : SagaStepRef → Checked SagaStepRef
valid_ref r = do
  id ← non_empty "must be non-empty" r.id
  use_name ← non_empty "must be non-empty" r.use_name
  version ← non_empty "must be non-empty" r.version
  with_spec ← each exactly_one_of_from_or_value r.with_spec
  when ← each_some (non_empty "when.cel must be non-empty") r.when
  demand (overrides_fit r.overrides) "overrides must be in range"
  ok (record r {
    id = id;
    use_name = use_name;
    version = version;
    with_spec = with_spec;
    when = when;
  })

-- the field validators of LoopAuthoringStep
unfoldable pub valid_loop : Loop SagaStepRef → Checked (Loop SagaStepRef)
valid_loop l = do
  id ← non_empty "loop id must be non-empty" l.id
  demand (leb 1 l.max_iterations) "max_iterations must be at least 1"
  until ← non_empty "until.cel must be non-empty" l.until
  steps ← each valid_ref l.steps
  demand (not (is_empty steps)) "loop body steps must be non-empty"
  ok (record l { id = id; until = until; steps = steps })

unfoldable pub valid_node : Node SagaStepRef → Checked (Node SagaStepRef)
valid_node (step r) = do ref ← valid_ref r; ok (step ref)
valid_node (loop l) = do body ← valid_loop l; ok (loop body)
valid_node (native n) = do engine ← valid_native n; ok (native engine)

module _ {A : Type 0} (id_of : A → String) where
  unfoldable pub executable_ids : List (Node A) → List String
  executable_ids [] = []
  executable_ids (step s ∷ rest) = id_of s ∷ executable_ids rest
  executable_ids (loop l ∷ rest) = map id_of l.steps ++ executable_ids rest
  executable_ids (native n ∷ rest) = n.id ∷ executable_ids rest

-- iter_authoring_loop_ids and iter_loop_ids
unfoldable pub loop_ids : {A : Type 0} → List (Node A) → List String
loop_ids [] = []
loop_ids (step s ∷ rest) = loop_ids rest
loop_ids (loop l ∷ rest) = l.id ∷ loop_ids rest
loop_ids (native n ∷ rest) = loop_ids rest

unfoldable pub natives : {A : Type 0} → List (Node A) → List NativeStep
natives [] = []
natives (step s ∷ rest) = natives rest
natives (loop l ∷ rest) = natives rest
natives (native n ∷ rest) = n ∷ natives rest

unfoldable pub iter_authoring_executable_ids : List (Node SagaStepRef) → List String
iter_authoring_executable_ids = executable_ids (λ r. r.id)

unfoldable pub iter_executable_step_ids : List (Node SagaStep) → List String
iter_executable_step_ids = executable_ids (λ s. s.id)

-- ensure_unique_ids_and_no_nested_loops, of a blueprint's step ids and loop ids
unfoldable pub ensure_unique_ids : List String → List String → Checked (Unit {0})
ensure_unique_ids steps loops = do
  demand (distinct steps) "All step IDs in a blueprint must be unique."
  demand (distinct loops) "All loop IDs in a blueprint must be unique."
  demand (all (λ l. not (is_in steps l)) loops) "Loop IDs must not collide with step IDs"

unfoldable pub spawn_ids : List NativeStep → List String
spawn_ids [] = []
spawn_ids (n ∷ ns) = elim n.task [ spawn s ↦ n.id ∷ spawn_ids ns | join j ↦ spawn_ids ns ]

unfoldable pub join_targets : List NativeStep → List String
join_targets [] = []
join_targets (n ∷ ns) = elim n.task [
  | spawn s ↦ join_targets ns
  | join j ↦ j.spawn_step_id ∷ join_targets ns
]

module _ (compiles : String → Bool) where
  -- _compile_jsonpath of the two paths of a spawn step; `compiles` is jsonpath_ng's parser
  abbrev pub paths_compile : NativeStep → Bool
  paths_compile n = elim n.task [
    | spawn s ↦ compiles s.items_from && compiles s.result_from
    | join j ↦ true
  ]

  -- validate_spawn_join_wiring, of the engine-native steps of a blueprint
  unfoldable pub validate_spawn_join_wiring : List NativeStep → Checked (Unit {0})
  validate_spawn_join_wiring ns = do
    demand (all paths_compile ns) "is not a valid JSONPath"
    demand (all (is_in (spawn_ids ns)) (join_targets ns)) "references unknown spawn_step_id"
    demand (distinct (join_targets ns)) "spawn_step_id is targeted by more than one join"

  -- SagaAuthoringBlueprint.model_validate
  unfoldable pub validate_authoring : Blueprint SagaStepRef → Checked (Blueprint SagaStepRef)
  validate_authoring b = do
    steps ← each valid_node b.steps
    ensure_unique_ids (iter_authoring_executable_ids steps) (loop_ids steps)
    validate_spawn_join_wiring (natives steps)
    ok (record b { steps = steps })

  -- the model validators of HydratedSagaBlueprint
  unfoldable pub validate_hydrated : Blueprint SagaStep → Checked (Blueprint SagaStep)
  validate_hydrated b = do
    ensure_unique_ids (iter_executable_step_ids b.steps) (loop_ids b.steps)
    validate_spawn_join_wiring (natives b.steps)
    ok b
