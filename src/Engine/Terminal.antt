-- ===== src/Engine/Terminal.antt =====
-- How a saga ends (engine/logic.py): completion, restored state, failure. `wake` stands for
-- `on_child_saga_terminal` of engine/child_sagas.py, which goes on with the parent saga.
use warden_core.Prelude.{
  ℕ, String, Bool, ◌&&◌, Option, none, some, ◌==◌, ltb, if◌then◌else◌, count_where,
}
use warden_core.Json.{Json, num, str, obj, end, field}
use warden_core.Model.{
  StepStatus, SagaStatus, EventType, Saga, Step, Message, saga_event, event_key, saga_transition,
  steps_skipped_summary, Env, is_pending, saga_is_completed,
}
use warden_core.Tx.{Tx, Action, pure, reads, ◌>>=◌, ◌>>◌, when}
use warden_core.Store.{get_saga, save_saga, update_steps, hook, now, emit, is_forward}

-- `saga.status = …; await saga.save(…)` and its on_saga_transition
unfoldable pub move_saga : String → SagaStatus → String → Action
move_saga t to reason = do
  saga ← get_saga t
  save_saga t (λ s. record s { status = to })
  hook (saga_transition t saga.status to reason)

abbrev pub is_unreached : String → Step → Bool
is_unreached t r = is_forward r && r.saga_trace_id == t && is_pending r.status

-- _mark_unreachable_forward_steps_skipped
unfoldable pub mark_unreachable_forward_steps_skipped : String → Tx ℕ
mark_unreachable_forward_steps_skipped t = do
  ended ← now
  n ← reads (λ w. count_where (is_unreached t) w.steps)
  update_steps (is_unreached t)
      (λ r. record r { status = StepStatus.skipped; end_time = some ended })
  pure n

-- _notify_unreachable_steps_skipped
unfoldable pub notify_unreachable_steps_skipped : String → String → Tx ℕ
notify_unreachable_steps_skipped t reason = do
  skipped ← mark_unreachable_forward_steps_skipped t
  when (ltb 0 skipped) (hook (steps_skipped_summary t skipped reason))
  pure skipped

-- The outbox row of a SagaEventPayload: its idempotency key has no span.
abbrev pub saga_message : Saga → EventType → Json → Message
saga_message saga e output = record {
  namespace = saga.namespace;
  saga_trace_id = saga.trace_id;
  step_span_id = "";
  key = event_key saga.trace_id e "";
  payload = saga_event e output;
}

abbrev pub optional_field : String → Option Json → Json → Json
optional_field k none (obj fs) = obj fs
optional_field k (some v) (obj fs) = obj (field k v fs)
optional_field k o j = j

module _ (env : Env) (wake : String → Action) where
  -- handle_saga_completion
  unfoldable pub handle_saga_completion : String → Action
  handle_saga_completion t = do
    saga ← get_saga t
    if saga_is_completed saga.status then pure tt else do
      move_saga t SagaStatus.completed ""
      _ ← notify_unreachable_steps_skipped t "saga_completed"
      completed_at ← now
      emit env (
          saga_message saga EventType.saga_completed
            (obj (field "completed_at" (num completed_at) (field "outcome" (str "Success") end))))
      wake t

  -- _finalize_saga_compensated
  unfoldable pub finalize_saga_compensated : String → Action
  finalize_saga_compensated t = do
    saga ← get_saga t
    move_saga t SagaStatus.compensated ""
    _ ← notify_unreachable_steps_skipped t "saga_compensated"
    completed_at ← now
    emit env (
        saga_message saga EventType.saga_compensated (
          obj
            (field "completed_at" (num completed_at) (field "outcome" (str "STATE_RESTORED") end))))
    wake t

  -- _emit_saga_failed_from_compensation
  unfoldable pub emit_saga_failed_from_compensation :
      String → String → Option String → Option Json → Action
  emit_saga_failed_from_compensation t reason span details = do
    saga ← get_saga t
    move_saga t SagaStatus.failed reason
    _ ← notify_unreachable_steps_skipped t "saga_failed"
    failed_at ← now
    emit env (
        saga_message saga EventType.saga_failed (
          optional_field "step_span_id" (elim span [ none ↦ none | some i ↦ some (str i) ])
            (optional_field "error_details" details
              (obj (field "reason" (str reason) (field "failed_at" (num failed_at) end))))))
    wake t

  -- _fail_saga_no_compensation_window
  unfoldable pub fail_saga_no_compensation_window : String → Step → Json → Action
  fail_saga_no_compensation_window t step raw_payload = do
    saga ← get_saga t
    move_saga t SagaStatus.failed "step_failed_at_start"
    _ ← notify_unreachable_steps_skipped t "step_failed_at_start"
    failed_at ← now
    emit env (
        saga_message saga EventType.saga_failed (
          obj (
            field "reason" (str "step_failed_at_start") (
              field "step_span_id" (str step.span_id) (
                field "step_order" (num step.order_index) (
                  field "forward_seq" (num step.forward_seq) (
                    field "error_details" raw_payload (field "failed_at" (num failed_at) end))))))))
    wake t
