-- ===== src/Engine/Compensation/Walk.antt =====
-- engine/logic.py: the last-in-first-out walk over the forward rows that undoes them one by one, and
-- compensate_spawn_sagas_forward of engine/child_sagas.py, which undoes a spawn step by waiting for
-- its children. The walk's cursor `n` is the source's `seq + 1`, so that its end, -1, is 0.
use Prim.Native.String.{◌++◌ as join}
use warden_core.Prelude.{
  ℕ, zero, suc, String, Bool, true, false, ◌&&◌, Option, none, some, List, [], ◌∷◌, ◌==◌, exists,
  find_first, if◌then◌else◌, get_or,
}
use warden_core.Json.{Json, str, bool, obj, end, field, get_key, empty_dict, dict_or_empty}
use warden_core.Model.{
  StepStatus, OnFailure, Step, Saga, Parameter, Binding, from_path, literal, WorkerRow, Undo,
  execute_compensation, text_key, step_transition, step_created, compensation_scheduled, World, Env,
  is_compensated, is_compensating, is_spawn,
}
use warden_core.Tx.{Action, pure, reads, ◌>>=◌, ◌>>◌, with_some, skip}
use warden_core.Store.{get_saga, save_step, create_step, hook, draw, emit, forward_at}
use warden_core.Engine.Terminal.{finalize_saga_compensated, emit_saga_failed_from_compensation}
use warden_core.Engine.Compensation.{
  forward_step_has_compensation, forward_eligible_for_compensation, compensation_tool_names,
  compensation_resource_uris, compensation_parameter_context, resolve_parameters_spec,
}
use warden_core.Engine.Children.{load_spawn_children, all_children_terminal}

-- _undo_row_status_exists, for the two statuses that are asked for
abbrev pub is_undo_of : String → String → Step → Bool
is_undo_of t span r =
    r.saga_trace_id == t && elim r.compensates_span_id [ none ↦ false | some i ↦ i == span ]

unfoldable pub undo_done : String → String → World → Bool
undo_done t span w = exists (λ r. is_undo_of t span r && is_compensated r.status) w.steps

unfoldable pub undo_in_flight : String → String → World → Bool
undo_in_flight t span w = exists (λ r. is_undo_of t span r && is_compensating r.status) w.steps

abbrev text_or : Option Json → String → String
text_or (some (str s)) d = if s == "" then d else s
text_or _ d = d

abbrev parameters_of_entry : Json → Option Binding
parameters_of_entry j = elim (get_key "from" j) [
  | some (str p) ↦ some (from_path p)
  | _ ↦ elim (get_key "value" j) [ some v ↦ some (literal v) | none ↦ none ]
]

abbrev parameters_of : Json → List Parameter
parameters_of (obj (field k j rest)) =
    let others : List Parameter = parameters_of (obj rest) in
    elim (parameters_of_entry j) [
      | none ↦ others
      | some b ↦ record { key = k; binding = b } ∷ others
    ]
parameters_of _ = []

abbrev worker_snapshot : String → String → String → List WorkerRow → Option String
worker_snapshot namespace name version rows =
    elim (find_first
      (λ (r : WorkerRow). r.namespace == namespace && r.name == name && r.version == version)
      rows) [ none ↦ none | some r ↦ some r.version ]

-- The DoCompensationCommand for a forward row.
unfoldable pub compensation_command : Env → World → Saga → Step → String → String → Undo
compensation_command env w saga forward new_span key =
    let comp_def : Json = get_or forward.spec.compensation_definition empty_dict in
    let worker : String = text_or (get_key "worker" comp_def) forward.spec.worker in
    let version : String =
      text_or (get_key "worker_version" comp_def) forward.spec.worker_version in
    record {
      worker_name = worker;
      worker_version = version;
      idempotency_key = key;
      forward_step_span_id = forward.span_id;
      original_input =
          resolve_parameters_spec env (parameters_of (dict_or_empty (get_key "with" comp_def)))
            (compensation_parameter_context saga forward new_span key);
      failure_reason = forward.error_details;
      tool_specs = compensation_tool_names comp_def;
      resource_specs = compensation_resource_uris comp_def;
      worker_snapshot = worker_snapshot saga.namespace worker version w.workers;
    }

-- The undo row that SagaStepInstance.create writes for a forward row.
abbrev pub undo_row : String → Step → Undo → String → Step
undo_row t forward command new_span = record forward {
  saga_trace_id = t;
  span_id = new_span;
  compensates_span_id = some forward.span_id;
  spec = record (forward.spec) {
    worker = command.worker_name;
    worker_version = command.worker_version;
    tools_allow = command.tool_specs;
    resources_allow = command.resource_specs;
    skills_allow = [];
    skills_definition = none;
    parameters_spec = [];
    input_ports = empty_dict;
    prompt_ref = none;
    prompt_definition = none;
    output_schema = none;
    policy_name = none;
    policy_definition = none;
    hitl_required = false;
    hitl_max_retries = none;
    hitl_retry_guidance = none;
    on_failure_strategy = OnFailure.auto_compensate;
    when_cel = none;
  };
  idempotency_key = command.idempotency_key;
  status = StepStatus.compensating;
  end_time = none;
  resolved_arguments = empty_dict;
  output_payload = none;
  error_details = none;
  pending_review_payload = none;
  hitl_review_started_at = none;
  hitl_retry_count = 0;
}

module _ (env : Env) (wake : String → Action) where
  -- the `except ValidationError` of _schedule_compensation_for_forward
  unfoldable pub compensation_build_failed : String → Step → String → Action
  compensation_build_failed t forward message = do
    let details =
        obj (field "code" (str "COMPENSATION_BUILD_ERROR") (field "msg" (str message) end))
    save_step forward.span_id
        (λ r. record r { status = StepStatus.failed; error_details = some details })
    hook (
        step_transition forward.span_id forward.status StepStatus.failed "compensation_build_error")
    emit_saga_failed_from_compensation env wake t "compensation_failed" (some forward.span_id)
        (some details)

  -- the hooks and the command for a new undo row
  unfoldable pub announce_undo : Saga → Step → Undo → String → Action
  announce_undo saga forward command new_span = do
    hook (step_created new_span)
    hook (compensation_scheduled new_span forward.span_id)
    emit env (record {
      namespace = saga.namespace;
      saga_trace_id = saga.trace_id;
      step_span_id = new_span;
      key = text_key command.idempotency_key;
      payload = execute_compensation command;
    })

  unfoldable pub queue_undo : Saga → Step → Undo → String → Action
  queue_undo saga forward command new_span =
      create_step (undo_row saga.trace_id forward command new_span)
      >> announce_undo saga forward command new_span

  -- _schedule_compensation_for_forward
  unfoldable pub schedule_compensation_for_forward : String → Step → Action
  schedule_compensation_for_forward t forward = do
    new_span ← draw env
    saga ← get_saga t
    let key = join "comp-" (join saga.trace_id (join "-" new_span))
    command ← reads (λ w. compensation_command env w saga forward new_span key)
    with_some (env.command_error (execute_compensation command))
        (queue_undo saga forward command new_span) (compensation_build_failed t forward)

  -- The synthetic undo row of a spawn step whose children have all ended.
  unfoldable pub record_spawn_undo : String → Step → Action
  record_spawn_undo t forward = do
    existing ← reads (undo_done t forward.span_id)
    if existing then pure tt else do
      new_span ← draw env
      create_step (record forward {
        saga_trace_id = t;
        span_id = new_span;
        compensates_span_id = some forward.span_id;
        spec = record (forward.spec) {
          tools_allow = [];
          resources_allow = [];
          parameters_spec = [];
          prompt_ref = none;
          compensation_definition = none;
          output_schema = none;
          policy_name = none;
        };
        idempotency_key = join forward.idempotency_key ":spawn-compensate";
        status = StepStatus.compensated;
        end_time = none;
        resolved_arguments = empty_dict;
        output_payload =
            some (obj (field "data" (obj (field "awaited_children" (bool true) end)) end));
        error_details = none;
        pending_review_payload = none;
        hitl_review_started_at = none;
        hitl_retry_count = 0;
      })

  -- compensate_spawn_sagas_forward; `advance` is the walk from the row's `forward_seq - 1`.
  unfoldable pub compensate_spawn_sagas_forward : String → Step → Action → Action
  compensate_spawn_sagas_forward t forward advance = do
    saga ← get_saga t
    children ← reads (load_spawn_children saga.namespace saga.trace_id forward.spec.step_id)
    if all_children_terminal children
        then record_spawn_undo saga.trace_id forward >> advance
        else skip

  -- One round of the walk at a forward row; `advance` goes on below it.
  unfoldable pub undo_forward : String → Step → Action → Action
  undo_forward t forward advance =
      if forward_step_has_compensation forward && forward_eligible_for_compensation forward
      then (do
        already ← reads (undo_done t forward.span_id)
        if already then advance else do
          running ← reads (undo_in_flight t forward.span_id)
          if running
              then skip
              else if is_spawn forward.spec.step_kind
              then compensate_spawn_sagas_forward t forward advance
              else schedule_compensation_for_forward t forward)
      else advance

  -- _advance_lifo_compensation, from `forward_seq = n - 1` downwards
  unfoldable pub advance_lifo_compensation : String → ℕ → Action
  advance_lifo_compensation t zero = finalize_saga_compensated env wake t
  advance_lifo_compensation t (suc seq) = do
    let advance = advance_lifo_compensation t seq
    found ← reads (forward_at t seq)
    with_some found advance (λ forward. undo_forward t forward advance)
