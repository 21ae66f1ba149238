-- ===== src/Engine/Command.antt =====
-- engine/logic.py: the worker command of a forward step, its gates, and what a step's arguments must
-- meet (engine/utils.py, common/step_input_schema.py, common/skills.py). `wake` is
-- `on_child_saga_terminal`. A step that a gate stops yields no command.
use warden_core.Prelude.{
  ltb, String, Bool, true, false, not, ◌&&◌, ◌||◌, Option, none, some, List, [], ◌∷◌, ◌==◌,
  if◌then◌else◌, is_some, get_or,
}
use warden_core.Json.{
  Json, Fields, str, arr, end, field, get_key, is_dict, empty_dict, items, fields_of,
}
use warden_core.Text.{is_blank, strip}
use warden_core.Model.{
  StepKind, Step, StepSpec, Parameter, from_path, literal, Command, Payload, do_step, do_commit,
  Env, is_reason,
}
use warden_core.Tx.{Tx, Action, value_error, pure, raise, ◌>>=◌, ◌>>◌, when, with_some, skip}
use warden_core.Store.{get_saga, get_step, save_step}
use warden_core.Engine.Compensation.{resolve_parameters_spec}
use warden_core.Engine.Failure.{fail_step}
use warden_core.Engine.Hold.{enter_hitl_hold, merge_hitl_retry_into_arguments}
use warden_core.Engine.Policy.{
  Gate, passed, denied, errored, step_has_policy_gate, run_policy_gate, policy_binding,
}

-- A JSONPath that matches nothing: `missing_from` of resolve_parameters_spec is not empty.
unfoldable pub has_missing_path : Env → List Parameter → Json → Bool
has_missing_path env [] ctx = false
has_missing_path env (p ∷ ps) ctx =
    elim p.binding [ from_path path ↦ not (is_some (env.jsonpath path ctx)) | literal v ↦ false ]
    || has_missing_path env ps ctx

abbrev port_error : Env → Json → Option Json → Option String
port_error env value none = none
port_error env value (some port) = elim (get_key "schema" port) [
  | none ↦ none
  | some schema ↦ if is_dict schema then env.schema_error value schema else none
]

-- validate_resolved_arguments_against_input_ports: the first error
unfoldable pub input_port_error : Env → Json → Fields → Option String
input_port_error env ports end = none
input_port_error env ports (field k v rest) =
    let others : Option String = input_port_error env ports rest in
    elim (port_error env v (get_key k ports)) [ none ↦ others | some e ↦ some e ]

-- slim_tool_specs of common/command_specs.py
unfoldable pub slim_tool_specs : List String → List String
slim_tool_specs [] = []
slim_tool_specs (name ∷ rest) =
    let others : List String = slim_tool_specs rest in if name == "" then others else name ∷ others

abbrev text_at : String → Json → String
text_at k j = elim (get_key k j) [ none ↦ "" | some (str s) ↦ s | some _ ↦ "" ]

abbrev is_list : Option Json → Bool
is_list (some (arr xs)) = true
is_list _ = false

-- skill_embed_is_complete
unfoldable pub skill_embed_is_complete : Json → Bool
skill_embed_is_complete doc =
    not (is_blank (text_at "body" doc)) && is_list (get_key "allowed_tools" doc)

-- skills_coverage_gaps over skills_definition_by_name, as a test; the last embed of a name counts.
abbrev last_named : String → List Json → Option Json
last_named name [] = none
last_named name (j ∷ js) =
    let later : Option Json = last_named name js in
    elim later [
      | some d ↦ some d
      | none ↦ if is_dict j && strip (text_at "name" j) == name then some j else none
    ]

unfoldable pub skills_covered : List String → List Json → Bool
skills_covered [] docs = true
skills_covered (s ∷ rest) docs =
    (is_blank s
      || elim (last_named (strip s) docs) [ none ↦ false | some d ↦ skill_embed_is_complete d ])
    && skills_covered rest docs

abbrev all_blank : List String → Bool
all_blank [] = true
all_blank (s ∷ rest) = is_blank s && all_blank rest

-- _require_frozen_skills_definition
unfoldable pub skills_are_frozen : StepSpec → Bool
unfolding skills_covered skill_embed_is_complete
skills_are_frozen spec = all_blank spec.skills_allow || elim spec.skills_definition [
  | some (arr xs) ↦ skills_covered spec.skills_allow (items (arr xs))
  | _ ↦ false
]

-- _require_frozen_prompt_definition
unfoldable pub prompt_is_frozen : StepSpec → Bool
prompt_is_frozen spec =
    not (get_or spec.prompt_ref "" == "") && not (is_blank (get_or spec.prompt_definition ""))

abbrev pub command_of : Step → Command
command_of step = record {
  worker_name = step.spec.worker;
  worker_version = step.spec.worker_version;
  idempotency_key = step.idempotency_key;
  prompt_ref = if is_reason step.spec.step_kind then step.spec.prompt_ref else none;
  arguments = step.resolved_arguments;
  tool_specs = slim_tool_specs step.spec.tools_allow;
  resource_specs = step.spec.resources_allow;
  skill_specs = if is_reason step.spec.step_kind then step.spec.skills_allow else [];
}

abbrev pub is_single {ℓ} : {A : Type ℓ} → List A → Bool
is_single (x ∷ []) = true
is_single _ = false

-- The construction of a command's pydantic model.
unfoldable pub checked : Env → Payload → Tx Payload
checked env p = with_some (env.command_error p) (pure p) (λ e. raise (value_error e))

-- _build_reason_worker_command
unfoldable pub build_reason_worker_command : Env → Step → Tx (Option Payload)
build_reason_worker_command env step = do
  when (not (prompt_is_frozen step.spec)) (raise (value_error "no frozen prompt_definition"))
  when (not (skills_are_frozen step.spec))
      (raise (value_error "skills_definition does not cover skills.allow"))
  command ← checked env (do_step (command_of step))
  pure (some command)

module _ (env : Env) (wake : String → Action) where
  -- _fail_commit_on_policy
  abbrev pub fail_commit_on_policy : String → Step → Gate → Tx Bool
  fail_commit_on_policy t step passed = pure false
  fail_commit_on_policy t step denied = do
    fail_step env wake t step.span_id "POLICY_COMMIT_DENIED"
        "policy cel returned false; commit not allowed"
    pure true
  fail_commit_on_policy t step (errored named message) = do
    fail_step env wake t step.span_id "POLICY_EVALUATION_FAILED" message
    pure true

  -- _commit_policy_stopped_step
  unfoldable pub commit_policy_stopped_step : String → Step → Json → Tx Bool
  commit_policy_stopped_step t step worker_args =
      if step_has_policy_gate step.spec
      then (do
        saga ← get_saga t
        gate ←
            run_policy_gate env step (
              policy_binding "before_commit" saga step worker_args empty_dict step.spec.tools_allow)
        fail_commit_on_policy t step gate)
      else pure false

  -- the end of _build_commit_worker_command, behind the policy gate
  abbrev pub commit_or_hold : String → Step → Json → Tx (Option Payload)
  commit_or_hold t step worker_args =
      if step.spec.hitl_required
      then (do
        enter_hitl_hold t step.span_id (if is_dict worker_args then worker_args else empty_dict)
        pure none)
      else (do command ← checked env (do_commit (command_of step)); pure (some command))

  -- _build_commit_worker_command
  unfoldable pub build_commit_worker_command : String → Step → Json → Tx (Option Payload)
  build_commit_worker_command t step worker_args = do
    when (not (is_single step.spec.tools_allow))
        (raise (value_error "Commit step must have exactly one tool in tools_allow"))
    stopped ← commit_policy_stopped_step t step worker_args
    if stopped then pure none else commit_or_hold t step worker_args

  -- _build_forward_worker_command
  abbrev pub build_for_kind : StepKind → String → Step → Json → Tx (Option Payload)
  build_for_kind StepKind.commit t step worker_args = build_commit_worker_command t step worker_args
  build_for_kind StepKind.reason t step worker_args = build_reason_worker_command env step
  build_for_kind _ t step worker_args = raise (value_error "invalid step_kind for worker dispatch")

  unfoldable pub build_forward_worker_command : String → Step → Json → Tx (Option Payload)
  build_forward_worker_command t step worker_args =
      build_for_kind step.spec.step_kind t step worker_args

  abbrev retry_arguments : Step → Option String → Json → Json
  retry_arguments step guidance worker_args =
      if is_reason step.spec.step_kind && (ltb 0 step.hitl_retry_count || is_some guidance)
      then merge_hitl_retry_into_arguments worker_args step guidance step.hitl_retry_count
      else worker_args

  -- The part of trigger_step between its `try` and the command: resolve the arguments, check them
  -- against the input ports, store them on the row, and build the command.
  unfoldable pub prepare_worker_command : String → Step → Option String → Tx (Option Payload)
  prepare_worker_command t step guidance = do
    saga ← get_saga t
    let resolved = resolve_parameters_spec env step.spec.parameters_spec saga.context
    when (has_missing_path env step.spec.parameters_spec saga.context)
        (raise (value_error "JSONPath target missing for input(s)"))
    with_some (input_port_error env step.spec.input_ports (fields_of resolved)) skip
        (λ e. raise (value_error e))
    let worker_args = retry_arguments step guidance resolved
    save_step step.span_id (λ r. record r { resolved_arguments = worker_args })
    ready ← get_step step.span_id
    build_forward_worker_command t ready worker_args
