-- ===== src/Engine/Handlers/Results.antt =====
-- engine/logic.py: the handlers of the events that workers and the engine itself send.
use warden_core.Prelude.{
  String, Bool, true, false, not, ◌&&◌, Option, none, some, [], if◌then◌else◌, get_or, or_else,
}
use warden_core.Json.{Json, is_dict, truthy, empty_dict}
use warden_core.Model.{
  StepStatus, SagaStatus, Step, Saga, Event, Key, event_key, step_transition, ingest_deduplicated,
  Env, is_in_progress, is_compensating, is_compensated, is_reason, saga_is_pending,
  saga_awaits_recovery,
}
use warden_core.Tx.{Tx, Action, pure, ◌>>=◌, ◌>>◌, with_some, skip}
use warden_core.Store.{find_step, save_step, hook, now, is_forward}
use warden_core.Engine.Terminal.{move_saga, emit_saga_failed_from_compensation}
use warden_core.Engine.Compensation.{business_data_from_step_output}
use warden_core.Engine.Compensation.Walk.{advance_lifo_compensation}
use warden_core.Engine.Failure.{
  details, step_failure_payload, apply_step_failure_lifecycle, fail_step,
}
use warden_core.Engine.Hold.{enter_hitl_hold}
use warden_core.Engine.Policy.{
  Gate, passed, denied, errored, step_has_policy_gate, run_policy_gate, policy_binding,
}
use warden_core.Engine.Advance.{finalize_step_output_and_advance}
use warden_core.Engine.Chain.{Chain}

abbrev pub ingest_key : Event → Key
ingest_key e = event_key e.saga_trace_id e.event_type e.step_span_id

-- _notify_skipped_ingest
unfoldable pub notify_skipped_ingest : Event → String → Action
notify_skipped_ingest e reason = hook (ingest_deduplicated (ingest_key e) reason)

-- validate_business_data_schema of common/step_output.py, as the error that it raises
unfoldable pub output_schema_error : Env → Option Json → Json → Option String
unfolding business_data_from_step_output
output_schema_error env none output = none
output_schema_error env (some schema) output =
    if not (truthy schema) then none else elim (business_data_from_step_output (some output)) [
      | none ↦ some "STEP_COMPLETED output must include a 'data' object"
      | some inner ↦ env.schema_error inner schema
    ]

module _ (env : Env) (c : Chain) where
  abbrev pub finish : String → String → Json → Action
  finish = finalize_step_output_and_advance env c.wake c.schedule_next

  -- handle_saga_started
  unfoldable pub handle_saga_started : Saga → Action
  handle_saga_started saga =
      if saga_is_pending saga.status
      then (do move_saga saga.trace_id SagaStatus.running ""; c.schedule_next saga.trace_id 0)
      else skip

  -- _ignore_stale_step_completed: the reason why the event is dropped
  unfoldable pub stale_step_completed : Saga → Step → Option String
  stale_step_completed saga step =
      if saga_awaits_recovery saga.status
      then some "awaiting_recovery"
      else if is_in_progress step.status
      then none
      else some "late_step_state"

  -- _fail_reason_on_policy: the verdict takes the place of any error details that the step has.
  unfoldable pub fail_reason_on_policy : String → String → String → String → Action
  fail_reason_on_policy t span code message = do
    save_step span (λ r. record r { error_details = some (details code message) })
    fail_step env c.wake t span code message

  -- _maybe_stop_reason_on_policy, behind its gate test
  abbrev pub stop_on_gate : String → Step → Gate → Tx Bool
  stop_on_gate t step passed = pure false
  stop_on_gate t step denied = do
    fail_reason_on_policy t step.span_id "POLICY_REASON_DENIED"
        "policy cel returned false; reason output not allowed"
    pure true
  stop_on_gate t step (errored named message) = do
    fail_reason_on_policy t step.span_id "POLICY_EVALUATION_FAILED" message
    pure true

  unfoldable pub stop_reason_on_policy : Saga → Step → Json → Tx Bool
  stop_reason_on_policy saga step output =
      if is_reason step.spec.step_kind && step_has_policy_gate step.spec
      then (do
        gate ←
            run_policy_gate env step
              (policy_binding "after_reason" saga step step.resolved_arguments output [])
        stop_on_gate saga.trace_id step gate)
      else pure false

  -- handle_step_completed, past the output schema
  unfoldable pub accept_step_output : Saga → Step → Json → Action
  accept_step_output saga step output = do
    stopped ← stop_reason_on_policy saga step output
    if stopped
        then skip
        else if step.spec.hitl_required && is_reason step.spec.step_kind
        then enter_hitl_hold saga.trace_id step.span_id
            (if is_dict output then output else empty_dict)
        else finish saga.trace_id step.span_id output

  -- handle_step_completed
  unfoldable pub handle_step_completed : Saga → Event → Action
  handle_step_completed saga e = do
    found ← find_step saga.trace_id e.step_span_id
    with_some found skip λ step.
        with_some (stale_step_completed saga step)
          (with_some (output_schema_error env step.spec.output_schema (get_or e.output empty_dict))
            (accept_step_output saga step (get_or e.output empty_dict))
            (fail_step env c.wake saga.trace_id step.span_id "OUTPUT_SCHEMA_VALIDATION_FAILED"))
          (notify_skipped_ingest e)

  -- the guards of handle_step_failed: the reason why the event is dropped
  unfoldable pub stale_step_failed : SagaStatus → StepStatus → Option String
  stale_step_failed SagaStatus.awaiting_recovery s = some "awaiting_recovery"
  stale_step_failed saga StepStatus.compensating = some "terminal_step_state"
  stale_step_failed saga StepStatus.compensated = some "terminal_step_state"
  stale_step_failed saga StepStatus.failed = some "terminal_step_state"
  stale_step_failed SagaStatus.compensating StepStatus.timed_out = some "duplicate_timeout_ingest"
  stale_step_failed SagaStatus.compensated StepStatus.timed_out = some "duplicate_timeout_ingest"
  stale_step_failed SagaStatus.failed StepStatus.timed_out = some "duplicate_timeout_ingest"
  stale_step_failed _ _ = none

  -- handle_step_failed
  unfoldable pub handle_step_failed : Saga → Event → Action
  handle_step_failed saga e = do
    found ← find_step saga.trace_id e.step_span_id
    with_some found skip λ step.
        with_some (stale_step_failed saga.status step.status)
          (apply_step_failure_lifecycle env c.wake saga.trace_id step.span_id
            (step_failure_payload e.error_details e.output))
          (notify_skipped_ingest e)

  -- handle_compensation_completed, past its guards
  unfoldable pub complete_undo : Saga → Step → Event → Action
  complete_undo saga step e = do
    ended ← now
    save_step step.span_id (λ r. record r {
      status = StepStatus.compensated;
      end_time = some ended;
      output_payload = some (get_or e.output empty_dict);
    })
    hook (step_transition step.span_id step.status StepStatus.compensated "")
    advance_lifo_compensation env c.wake saga.trace_id step.forward_seq

  -- handle_compensation_completed
  unfoldable pub handle_compensation_completed : Saga → Event → Action
  handle_compensation_completed saga e = do
    found ← find_step saga.trace_id e.step_span_id
    with_some found skip λ step.
        if is_compensated step.status
        then notify_skipped_ingest e "already_compensated"
        else if is_forward step
        then skip
        else if is_compensating step.status
        then complete_undo saga step e
        else skip

  abbrev pub fail_undo_row : Step → Option Json → Action
  fail_undo_row step given = do
    ended ← now
    save_step step.span_id
        (λ r. record r { status = StepStatus.failed; end_time = some ended; error_details = given })
    hook (step_transition step.span_id step.status StepStatus.failed "compensation_failed")

  abbrev pub truthy_details : Option Json → Option Json
  truthy_details none = none
  truthy_details (some d) = if truthy d then some d else none

  -- handle_compensation_failed
  unfoldable pub handle_compensation_failed : Saga → Event → Action
  handle_compensation_failed saga e = do
    let given = or_else (truthy_details e.error_details) e.output
    found ← find_step saga.trace_id e.step_span_id
    with_some found skip (λ step. fail_undo_row step given)
    emit_saga_failed_from_compensation env c.wake saga.trace_id "compensation_failed"
        (some e.step_span_id) given
