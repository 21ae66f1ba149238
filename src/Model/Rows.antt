-- ===== src/Model/Rows.antt =====
-- The rows SagaStepInstance, SagaInstance and SagaChild of common/models.py, and the frozen
-- blueprint that they are made from. The columns for time spans, tokens and telemetry
-- (execution_timing, pending_engine_timing, execution_usage, started_at) are left out: no branch
-- of the engine reads them.
use warden_core.Prelude.{ℕ, String, Bool, Option, List}
use warden_core.Json.{Json}
use warden_core.Model.Status.{StepStatus, SagaStatus, StepKind, OnFailure}

-- One entry of the step's `with` map: `{from: JSONPath}` or `{value: literal}`.
pub data Binding : Type 0 where
  from_path : String → Binding
  literal : Json → Binding

pub record Parameter : Type 0 where
  pub key : String
  pub binding : Binding

-- The `spawn` and `join` blocks of an engine-native step (SpawnSpec, JoinSpec).
pub record SpawnSpec : Type 0 where
  pub saga_name : String
  pub saga_version : String
  pub items_from : String
  pub item_var : String
  pub max_children : Option ℕ
  pub result_from : String
  pub input : List Parameter

pub record JoinSpec : Type 0 where
  pub spawn_step_id : String
  pub allow_zero_success : Bool

-- The columns that materialisation copies from the frozen step and nothing changes afterwards.
pub record StepSpec : Type 0 where
  pub step_id : String
  pub step_name : String
  pub step_kind : StepKind
  pub timeout_seconds : ℕ
  pub max_turns : ℕ
  pub worker : String
  pub worker_version : String
  pub tools_allow : List String
  pub resources_allow : List String
  pub skills_allow : List String
  pub skills_definition : Option Json
  pub parameters_spec : List Parameter
  pub input_ports : Json
  pub prompt_ref : Option String
  pub prompt_definition : Option String
  pub compensation_definition : Option Json
  pub output_schema : Option Json
  pub policy_name : Option String
  pub policy_definition : Option Json
  pub hitl_required : Bool
  pub hitl_max_retries : Option ℕ
  pub hitl_retry_guidance : Option String
  pub on_failure_strategy : OnFailure
  pub when_cel : Option String
  pub spawn : Option SpawnSpec
  pub join : Option JoinSpec

-- SagaStepInstance
pub record Step : Type 0 where
  pub span_id : String
  pub compensates_span_id : Option String
  pub saga_trace_id : String
  pub namespace : String
  pub spec : StepSpec
  pub order_index : ℕ
  pub forward_seq : ℕ
  pub loop_id : Option String
  pub iteration : Option ℕ
  pub idempotency_key : String
  pub status : StepStatus
  pub end_time : Option ℕ
  pub resolved_arguments : Json
  pub output_payload : Option Json
  pub error_details : Option Json
  pub pending_review_payload : Option Json
  pub hitl_review_started_at : Option ℕ
  pub hitl_retry_count : ℕ

-- A loop of the frozen blueprint (LoopSagaStep), and its top level.
pub record LoopSpec : Type 0 where
  pub loop_id : String
  pub max_iterations : ℕ
  pub until_cel : String
  pub body : List StepSpec

pub data TopStep : Type 0 where
  single : StepSpec → TopStep
  loop : LoopSpec → TopStep

-- `loop_state`: the cursor of delayed materialisation.
pub record LoopState : Type 0 where
  pub next_blueprint_index : ℕ
  pub active_loop_id : Option String

-- SagaInstance
pub record Saga : Type 0 where
  pub trace_id : String
  pub namespace : String
  pub status : SagaStatus
  pub context : Json
  pub frozen_steps : List TopStep
  pub loop_definitions : List LoopSpec
  pub loop_state : LoopState
  pub parent_trace_id : Option String
  pub definition_id : String
  pub start_idempotency_key : Option String

-- SagaDefinition of the catalog, with its body hydrated (engine/saga_hydrate.py): the frozen steps,
-- or the message of the ValueError that the hydration raises.
pub data Hydrated : Type 0 where
  frozen : List TopStep → Hydrated
  broken : String → Hydrated

pub record SagaDefinition : Type 0 where
  pub id : String
  pub namespace : String
  pub name : String
  pub version : String
  pub is_active : Bool
  pub hydrated : Hydrated

-- SagaChild: a link from a spawn step to one child saga.
pub record SagaChild : Type 0 where
  pub namespace : String
  pub parent_trace_id : String
  pub spawn_step_id : String
  pub spawn_span_id : String
  pub item_id : String
  pub child_trace_id : String
  pub idempotency_key : String
