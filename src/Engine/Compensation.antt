-- ===== src/Engine/Compensation.antt =====
-- common/compensation.py and common/compensation_context.py: which forward rows are undone, and the
-- context from which the arguments of an undo are resolved.
pub mod Walk
use warden_core.Prelude.{
  ℕ, String, Bool, true, false, not, ◌&&◌, ◌||◌, Option, none, some, List, [], ◌∷◌, ◌==◌, is_some,
  if◌then◌else◌, or_else, get_or,
}
use warden_core.Json.{
  Json, null, bool, num, number, str, arr, obj, nil, cons, end, field, get_key, is_dict, set_key,
  truthy, dict_or_empty, empty_dict, coerce_dict, items,
}
use warden_core.Model.{
  StepStatus, StepKind, Step, StepSpec, Saga, Parameter, Binding, from_path, literal, Env,
  is_timed_out, status_text,
}

-- forward_step_has_compensation
unfoldable pub forward_step_has_compensation : Step → Bool
forward_step_has_compensation forward = elim forward.spec.step_kind [
  | StepKind.spawn_sagas ↦ true
  | StepKind.join_sagas ↦ false
  | _ ↦ is_some forward.spec.compensation_definition
]

-- forward_eligible_for_compensation
unfoldable pub forward_eligible_for_compensation : Step → Bool
forward_eligible_for_compensation forward = elim forward.status [
  | StepStatus.completed ↦ true
  | StepStatus.failed ↦ true
  | StepStatus.timed_out ↦ true
  | StepStatus.in_progress ↦ true
  | _ ↦ false
]

abbrev non_empty : String → List String
non_empty s = if s == "" then [] else s ∷ []

abbrev text_of : Json → List String
text_of (str s) = non_empty s
text_of (number s) = s ∷ []
text_of j = elim (get_key "name" j) [ none ↦ [] | some (str s) ↦ non_empty s | some _ ↦ [] ]

abbrev names_of : List Json → List String
names_of [] = []
names_of (j ∷ js) = elim (text_of j) [ [] ↦ names_of js | s ∷ _ ↦ s ∷ names_of js ]

abbrev uri_of : Json → List String
uri_of (str s) = s ∷ []
uri_of j = elim (get_key "uri" j) [ none ↦ [] | some (str s) ↦ s ∷ [] | some _ ↦ [] ]

abbrev uris_of : List Json → List String
uris_of [] = []
uris_of (j ∷ js) = elim (uri_of j) [ [] ↦ uris_of js | s ∷ _ ↦ s ∷ uris_of js ]

abbrev allow_list : String → Json → List Json
allow_list block comp_def = elim (get_key "allow" (dict_or_empty (get_key block comp_def))) [
  | none ↦ []
  | some j ↦ items j
]

-- compensation_tool_resource_specs with slim_tool_specs: the names and uris that are allowed
unfoldable pub compensation_tool_names : Json → List String
compensation_tool_names comp_def = names_of (allow_list "tools" comp_def)

unfoldable pub compensation_resource_uris : Json → List String
compensation_resource_uris comp_def = uris_of (allow_list "resources" comp_def)

-- business_data_from_step_output of common/step_output.py
unfoldable pub business_data_from_step_output : Option Json → Option Json
business_data_from_step_output none = none
business_data_from_step_output (some output) = elim (get_key "data" output) [
  | none ↦ none
  | some inner ↦ if is_dict inner then some inner else none
]

-- step_output_for_saga_context: `{"data": <dict>}`
unfoldable pub step_output_for_saga_context : Option Json → Json
unfolding business_data_from_step_output
step_output_for_saga_context output =
    obj (field "data" (get_or (business_data_from_step_output output) empty_dict) end)

-- facts_from_step_output
unfoldable pub facts_from_step_output : Option Json → Json
facts_from_step_output none = empty_dict
facts_from_step_output (some output) = elim (get_key "facts" output) [
  | none ↦ empty_dict
  | some facts ↦ if is_dict facts then facts else empty_dict
]

-- step_context_entry_for_saga
unfoldable pub step_context_entry_for_saga : Option Json → Json
unfolding step_output_for_saga_context facts_from_step_output
step_context_entry_for_saga output = obj (
    field "output" (step_output_for_saga_context output)
      (field "facts" (facts_from_step_output output) end))

abbrev is_crash : Option Json → Bool
is_crash (some (str s)) = s == "SYSTEM_CRASH"
is_crash _ = false

-- `raw_payload.get("code") == "SYSTEM_CRASH"`
abbrev pub crashed : Json → Bool
crashed details = is_crash (get_key "code" details)

-- is_dirty_forward_step
unfoldable pub is_dirty_forward_step : Step → Bool
is_dirty_forward_step step =
    is_timed_out step.status || crashed (get_or step.error_details empty_dict)

abbrev truthy_option : Option Json → Option Json
truthy_option none = none
truthy_option (some j) = if truthy j then some j else none

-- effective_forward_step_output
unfoldable pub effective_forward_step_output : Step → Option Json
effective_forward_step_output step =
    elim (or_else (truthy_option step.output_payload) step.pending_review_payload) [
      | none ↦ none
      | some out ↦ if is_dict out then some out else none
    ]

-- forward_step_has_rollback_output
unfoldable pub forward_step_has_rollback_output : Step → Bool
unfolding effective_forward_step_output business_data_from_step_output
forward_step_has_rollback_output step = elim (effective_forward_step_output step) [
  | none ↦ false
  | some merged ↦
      truthy merged && truthy (get_or (business_data_from_step_output (some merged)) merged)
]

abbrev pub optional_text : Option String → Json
optional_text none = null
optional_text (some s) = str s

abbrev pub optional_number : Option ℕ → Json
optional_number none = null
optional_number (some n) = num n

-- build_compensation_metadata
unfoldable pub build_compensation_metadata : Step → String → String → Json
unfolding forward_step_has_rollback_output is_dirty_forward_step
build_compensation_metadata forward undo_span_id idempotency_key = obj (
    field "undo_span_id" (str undo_span_id) (
      field "forward_span_id" (str forward.span_id) (
        field "forward_step_id" (str forward.spec.step_id) (
          field "forward_order_index" (num forward.order_index) (
            field "forward_seq" (num forward.forward_seq) (
              field "forward_loop_id" (optional_text forward.loop_id) (
                field "forward_iteration" (optional_number forward.iteration) (
                  field "forward_status" (str (status_text forward.status)) (
                    field "idempotency_key" (str idempotency_key) (
                      field "has_forward_output" (bool (forward_step_has_rollback_output forward)) (
                        field "blind_cleanup"
                          (bool (not (forward_step_has_rollback_output forward)))
                          (field "dirty_failure" (bool (is_dirty_forward_step forward))
                            end))))))))))))

abbrev arguments_field : Json → Json → Json
arguments_field args ctx = if is_dict args && truthy args then set_key "arguments" args ctx else ctx

-- compensation_parameter_context, with _attach_forward_step_output_layer: the layer holds the output
-- of the row that is undone, so a later iteration's output cannot show through.
unfoldable pub compensation_parameter_context : Saga → Step → String → String → Json
unfolding step_output_for_saga_context build_compensation_metadata coerce_dict
compensation_parameter_context saga step undo_span_id idempotency_key =
    let merged : Option Json = effective_forward_step_output step in
    let facts : Option Json = elim merged [ none ↦ none | some j ↦ get_key "facts" j ] in
    let output : Json = obj (field "output" (step_output_for_saga_context merged) end) in
    let entry : Json = elim facts [
      | none ↦ output
      | some f ↦ if is_dict f then set_key "facts" f output else output
    ] in
    set_key "_compensation" (build_compensation_metadata step undo_span_id idempotency_key) (
      set_key "steps" (obj (field step.spec.step_id entry end)) (
        arguments_field step.resolved_arguments
          (obj (field "input" (coerce_dict (get_or (get_key "input" saga.context) null)) end))))

abbrev resolve_binding : Env → Binding → Json → Json
resolve_binding env (from_path p) ctx = get_or (env.jsonpath p ctx) null
resolve_binding env (literal v) ctx = v

-- resolve_parameters_spec of engine/utils.py: a path that matches nothing resolves to null.
unfoldable pub resolve_parameters_spec : Env → List Parameter → Json → Json
resolve_parameters_spec env [] ctx = empty_dict
resolve_parameters_spec env (p ∷ ps) ctx =
    set_key p.key (resolve_binding env p.binding ctx) (resolve_parameters_spec env ps ctx)
