-- ===== src/Ledger/Chains.antt =====
-- The relation Extends for starting sagas, policy gates, worker commands and loops (Engine/Start,
-- Engine/Policy, Engine/Command, Engine/Advance); the callbacks are parameters.
use warden_core.Prelude.{ℕ, suc, String, List, [], ◌∷◌, Option, true, false}
use warden_core.Json.{Json}
use warden_core.Model.{
  StepKind, Step, Saga, SagaDefinition, Hydrated, frozen, broken, LoopSpec, Env, Verdict, holds,
  fails, Payload,
}
use warden_core.Tx.{Action}
use warden_core.Tx.Keeps.{Keeps}
use warden_core.Engine.Blueprint.{Minted, materialize_executable_steps}
use warden_core.Engine.Start.{
  require_saga_definition, resolve_idempotent_start, create_saga, hydrate, create_saga_and_steps,
  resolved,
}
use warden_core.Engine.Policy.{
  Gate, passed, denied, errored, dispatch_policy_gate_hooks, run_policy_gate,
}
use warden_core.Engine.Command.{
  checked, build_reason_worker_command, fail_commit_on_policy, commit_policy_stopped_step,
  build_commit_worker_command, build_for_kind, build_forward_worker_command, prepare_worker_command,
}
use warden_core.Engine.Advance.{
  mint_and_schedule, fail_saga_after_successful_body, enter_segment, exit_loop, continue_loop,
  exhaust_loop, after_body, end_loop_body, handle_possible_loop_boundary,
  finalize_step_output_and_advance,
}
use warden_core.Ledger.Relation.{Extends}
use warden_core.Ledger.Primitives.{primitive_rules, Extends-add_saga}
use warden_core.Ledger.Steps.{
  Extends-move_saga, Extends-enter_hitl_hold, Extends-resume, Extends-walk, Extends-fail_step,
}

pub Extends-materialize :
    (env : Env) (saga : Saga) (ms : List Minted) (n : ℕ)
    → Keeps Extends (materialize_executable_steps env saga ms n)
unfolding materialize_executable_steps
Extends-materialize env saga [] n = search primitive_rules
Extends-materialize env saga (m ∷ ms) n =
    let rest = Extends-materialize env saga ms (suc n) in search primitive_rules depth 12

pub Extends-require :
    (namespace name version : String)
    → Keeps Extends (require_saga_definition namespace name version)
unfolding require_saga_definition
Extends-require namespace name version = search primitive_rules depth 12

pub Extends-resolve :
    (namespace id key : String) → Keeps Extends (resolve_idempotent_start namespace id key)
unfolding resolve_idempotent_start
Extends-resolve namespace id key = search primitive_rules depth 12

Extends-create_saga : (saga : Saga) → Keeps Extends (create_saga saga)
unfolding create_saga
Extends-create_saga saga = search (primitive_rules, Extends-add_saga) depth 12

Extends-hydrate : (h : Hydrated) → Keeps Extends (hydrate h)
Extends-hydrate (frozen steps) = search primitive_rules
Extends-hydrate (broken message) = search primitive_rules

pub Extends-create :
    (env : Env) (d : SagaDefinition) (input : Json) (key parent : Option String)
    → Keeps Extends (create_saga_and_steps env d input key parent)
unfolding create_saga_and_steps
Extends-create env d input key parent =
    search (primitive_rules, Extends-hydrate, Extends-create_saga, Extends-materialize) depth 12

Extends-resolved : (d : SagaDefinition) (key : Option String) → Keeps Extends (resolved d key)
Extends-resolved d Option.none = search primitive_rules
Extends-resolved d (Option.some key) = Extends-resolve d.namespace d.id key

Extends-gate_hooks : (span : String) (g : Gate) → Keeps Extends (dispatch_policy_gate_hooks span g)
unfolding dispatch_policy_gate_hooks
Extends-gate_hooks span passed = search primitive_rules
Extends-gate_hooks span denied = search primitive_rules
Extends-gate_hooks span (errored named message) = search primitive_rules

pub Extends-gate :
    (env : Env) (step : Step) (binding : Json) → Keeps Extends (run_policy_gate env step binding)
unfolding run_policy_gate
Extends-gate env step binding = search (primitive_rules, Extends-gate_hooks) depth 12

pub Extends-checked : (env : Env) (p : Payload) → Keeps Extends (checked env p)
unfolding checked
Extends-checked env p = search primitive_rules

Extends-build_reason :
    (env : Env) (step : Step) → Keeps Extends (build_reason_worker_command env step)
unfolding build_reason_worker_command
Extends-build_reason env step = search (primitive_rules, Extends-checked) depth 12

module _ (env : Env) {wake : String → Action} (wakes : (t : String) → Keeps Extends (wake t)) where
  Extends-fail_commit :
      (t : String) (step : Step) (g : Gate)
      → Keeps Extends (fail_commit_on_policy env wake t step g)
  Extends-fail_commit t step passed = search primitive_rules
  Extends-fail_commit t step denied = search (primitive_rules, Extends-fail_step) depth 12
  Extends-fail_commit t step (errored named message) =
      search (primitive_rules, Extends-fail_step) depth 12

  Extends-policy_stopped :
      (t : String) (step : Step) (args : Json)
      → Keeps Extends (commit_policy_stopped_step env wake t step args)
  unfolding commit_policy_stopped_step
  Extends-policy_stopped t step args =
      search (primitive_rules, Extends-gate, Extends-fail_commit) depth 12

  Extends-build_commit :
      (t : String) (step : Step) (args : Json)
      → Keeps Extends (build_commit_worker_command env wake t step args)
  unfolding build_commit_worker_command
  Extends-build_commit t step args =
      search (primitive_rules, Extends-policy_stopped, Extends-enter_hitl_hold, Extends-checked)
        depth 12

  Extends-build_kind :
      (k : StepKind) (t : String) (step : Step) (args : Json)
      → Keeps Extends (build_for_kind env wake k t step args)
  Extends-build_kind StepKind.commit t step args = Extends-build_commit t step args
  Extends-build_kind StepKind.reason t step args = Extends-build_reason env step
  Extends-build_kind StepKind.spawn_sagas t step args = search primitive_rules
  Extends-build_kind StepKind.join_sagas t step args = search primitive_rules
  Extends-build_kind StepKind.other t step args = search primitive_rules

  Extends-build :
      (t : String) (step : Step) (args : Json)
      → Keeps Extends (build_forward_worker_command env wake t step args)
  unfolding build_forward_worker_command
  Extends-build t step args = Extends-build_kind step.spec.step_kind t step args

  pub Extends-prepare :
      (t : String) (step : Step) (guidance : Option String)
      → Keeps Extends (prepare_worker_command env wake t step guidance)
  unfolding prepare_worker_command
  Extends-prepare t step guidance = search (primitive_rules, Extends-build) depth 14

  module _ {next : String → ℕ → Action}
      (schedules : (t : String) (n : ℕ) → Keeps Extends (next t n)) where
    Extends-mint :
        (t : String) (ms : List Minted) → Keeps Extends (mint_and_schedule env wake next t ms)
    unfolding mint_and_schedule
    Extends-mint t ms = search (primitive_rules, Extends-materialize) depth 12

    Extends-fail_body :
        (t : String) (step : Step) (code : String) (d : Json)
        → Keeps Extends (fail_saga_after_successful_body env wake next t step code d)
    unfolding fail_saga_after_successful_body
    Extends-fail_body t step code d =
        search (primitive_rules, Extends-move_saga, Extends-walk) depth 12

    Extends-enter :
        (t : String) (step : Step) (ctx : Json) (active : Option String) (ms : List Minted)
        → Keeps Extends (enter_segment env wake next t step ctx active ms)
    Extends-enter t step ctx active [] = schedules t _
    Extends-enter t step ctx active (m ∷ ms) = search (primitive_rules, Extends-mint) depth 12

    Extends-exit :
        (t : String) (step : Step) (l : LoopSpec) (n : ℕ)
        → Keeps Extends (exit_loop env wake next t step l n)
    unfolding exit_loop
    Extends-exit t step l n = search (primitive_rules, Extends-enter) depth 12

    Extends-continue :
        (t : String) (l : LoopSpec) (n : ℕ) → Keeps Extends (continue_loop env wake next t l n)
    unfolding continue_loop
    Extends-continue t l n = search (primitive_rules, Extends-mint) depth 12

    Extends-exhaust :
        (t : String) (step : Step) (l : LoopSpec) (n : ℕ) (code message : String)
        → Keeps Extends (exhaust_loop env wake next t step l n code message)
    unfolding exhaust_loop
    Extends-exhaust t step l n code message = search (primitive_rules, Extends-fail_body) depth 12

    Extends-after_body :
        (t : String) (step : Step) (l : LoopSpec) (n : ℕ) (v : Verdict)
        → Keeps Extends (after_body env wake next t step l n v)
    Extends-after_body t step l n (fails message) = Extends-exhaust t step l n _ _
    Extends-after_body t step l n (holds true) = Extends-exit t step l n
    Extends-after_body t step l n (holds false) =
        search (primitive_rules, Extends-exhaust, Extends-continue) depth 12

    Extends-end_body :
        (t : String) (step : Step) (l : LoopSpec)
        → Keeps Extends (end_loop_body env wake next t step l)
    unfolding end_loop_body
    Extends-end_body t step l = search (primitive_rules, Extends-after_body) depth 12

    pub Extends-boundary :
        (t : String) (step : Step)
        → Keeps Extends (handle_possible_loop_boundary env wake next t step)
    unfolding handle_possible_loop_boundary
    Extends-boundary t step = search (primitive_rules, Extends-end_body) depth 12

    pub Extends-finish :
        (t span : String) (output : Json)
        → Keeps Extends (finalize_step_output_and_advance env wake next t span output)
    unfolding finalize_step_output_and_advance
    Extends-finish t span output =
        search (primitive_rules, Extends-resume, Extends-boundary) depth 16
