-- ===== src/Engine/Policy.antt =====
-- common/policy_gate.py and the bindings of engine/logic.py and common/step_when.py: the CEL gates
-- before a commit, after a reason step, and before a step is scheduled.
use warden_core.Prelude.{
  ℕ, String, Bool, true, false, not, ◌||◌, Option, none, some, List, [], ◌∷◌, if◌then◌else◌, get_or,
}
use warden_core.Json.{
  Json, null, num, str, obj, end, field, get_key, set_key, coerce_dict, truthy, dict_or_empty,
}
use warden_core.Text.{is_blank}
use warden_core.Model.{
  StepKind, Step, StepSpec, Saga, policy_evaluated, policy_denied, policy_errored, Env, Verdict,
  holds, fails, saga_status_text,
}
use warden_core.Tx.{Tx, Action, pure, ◌>>◌, when}
use warden_core.Store.{hook}
use warden_core.Engine.Compensation.{optional_number}

-- PolicyGateResult; `errored` says whether the result names its policy, and the message.
pub data Gate : Type 0 where
  passed denied : Gate
  errored : Bool → String → Gate

-- step_has_policy_gate
unfoldable pub step_has_policy_gate : StepSpec → Bool
step_has_policy_gate spec =
    not (is_blank (get_or spec.policy_name "")) || elim spec.policy_definition [
      | none ↦ false
      | some d ↦ truthy (get_or (get_key "cel" d) null)
    ]

abbrev cel_text : Json → Option String
cel_text (str s) = if is_blank s then none else some s
cel_text _ = none

abbrev frozen_cel : Option Json → Option Json
frozen_cel none = none
frozen_cel (some d) = elim (get_key "cel" d) [
  | none ↦ none
  | some c ↦ if truthy c then some c else none
]

-- _resolve_gate_artifact, evaluate_policy_gate and _outcome_from_cel: the frozen `cel` decides, and a
-- gate with no frozen text is an error.
unfoldable pub evaluate_policy_gate : Env → StepSpec → Json → Gate
evaluate_policy_gate env spec binding = elim (frozen_cel spec.policy_definition) [
  | none ↦ errored true "policy_definition with cel is required"
  | some c ↦ elim (cel_text c) [
    | none ↦
        errored (not (is_blank (get_or spec.policy_name "")))
          "policy_definition must contain a non-empty 'cel' expression"
    | some source ↦ elim (env.eval_cel source binding) [
      | holds true ↦ passed
      | holds false ↦ denied
      | fails message ↦ errored true message
    ]
  ]
]

-- dispatch_policy_gate_hooks
unfoldable pub dispatch_policy_gate_hooks : String → Gate → Action
dispatch_policy_gate_hooks span passed = hook (policy_evaluated span)
dispatch_policy_gate_hooks span denied = hook (policy_denied span)
dispatch_policy_gate_hooks span (errored named message) = when named (hook (policy_errored span))

-- run_policy_gate: the evaluation, and its hook
unfoldable pub run_policy_gate : Env → Step → Json → Tx Gate
run_policy_gate env step binding = do
  let gate = evaluate_policy_gate env step.spec binding
  dispatch_policy_gate_hooks step.span_id gate
  pure gate

abbrev kind_text : StepKind → String
kind_text StepKind.reason = "reason"
kind_text StepKind.commit = "commit"
kind_text StepKind.spawn_sagas = "spawn_sagas"
kind_text StepKind.join_sagas = "join_sagas"
kind_text StepKind.other = "other"

abbrev saga_layer : Saga → Json
saga_layer saga = obj (
    field "trace_id" (str saga.trace_id) (
      field "namespace" (str saga.namespace)
        (field "status" (str (saga_status_text saga.status)) end)))

abbrev step_layer : Step → Json
step_layer step = obj (
    field "id" (str step.spec.step_id) (
      field "name" (str step.spec.step_name) (
        field "kind" (str (kind_text step.spec.step_kind)) (
          field "order_index" (num step.order_index)
            (field "forward_seq" (num step.forward_seq) end)))))

abbrev first_tool : List String → String
first_tool [] = ""
first_tool (name ∷ _) = name

abbrev context_layer : String → Saga → Json
context_layer k saga = coerce_dict (get_or (get_key k (coerce_dict saga.context)) null)

-- _policy_binding
unfoldable pub policy_binding : String → Saga → Step → Json → Json → List String → Json
unfolding coerce_dict
policy_binding phase saga step arguments output tools = obj (
    field "phase" (str phase) (
      field "input" (context_layer "input" saga) (
        field "arguments" arguments (
          field "output" output (
            field "saga" (saga_layer saga) (
              field "step" (step_layer step) (
                field "worker"
                  (obj (
                    field "name" (str step.spec.worker)
                      (field "version" (str step.spec.worker_version) end)))
                  (field "tool" (obj (field "name" (str (first_tool tools)) end)) end))))))))

abbrev loop_layer : Saga → Option String → Option ℕ → Json → Json
loop_layer saga none iteration binding = binding
loop_layer saga (some id) iteration binding =
    set_key "loop"
      (obj (
        field "id" (str id) (
          field "iteration" (optional_number iteration) (
            field "max_iterations"
              (get_or
                (get_key "max_iterations" (dict_or_empty (get_key id (context_layer "loops" saga))))
                null)
              end))))
      binding

-- step_when_binding
unfoldable pub step_when_binding : Saga → Step → Json
unfolding coerce_dict
step_when_binding saga step = loop_layer saga step.loop_id step.iteration (
    obj (
      field "input" (context_layer "input" saga) (
        field "steps" (context_layer "steps" saga) (
          field "loops" (context_layer "loops" saga)
            (field "saga" (saga_layer saga) (field "step" (step_layer step) end))))))

-- evaluate_step_when, on the text of a step that has one
unfoldable pub evaluate_step_when : Env → String → Saga → Step → Verdict
unfolding step_when_binding
evaluate_step_when env source saga step = env.eval_cel source (step_when_binding saga step)

-- until_binding
unfoldable pub until_binding : Saga → String → ℕ → ℕ → Json
unfolding coerce_dict
until_binding saga loop_id iteration max_iterations = obj (
    field "input" (context_layer "input" saga) (
      field "steps" (context_layer "steps" saga) (
        field "loops" (context_layer "loops" saga) (
          field "saga" (saga_layer saga) (
            field "loop"
              (obj (
                field "id" (str loop_id) (
                  field "iteration" (num iteration)
                    (field "max_iterations" (num max_iterations) end))))
              end)))))
