-- ===== src/Engine/Handlers/Review.antt =====
-- engine/logic.py: the handlers of the human decisions.
use warden_core.Prelude.{
  suc, String, Bool, true, false, not, ◌&&◌, Option, none, some, ◌==◌, if◌then◌else◌, is_some,
  or_else,
}
use warden_core.Json.{Json, str, obj, end, field, get_key, is_dict, truthy, empty_dict}
use warden_core.Text.{stripped}
use warden_core.Model.{
  StepStatus, SagaStatus, StepKind, Step, Saga, Event, text_key, do_commit, step_transition,
  step_scheduled, step_started, hitl_approved, hitl_rejected, hitl_retry_requested, Env,
  is_awaiting_human, is_commit,
}
use warden_core.Tx.{Action, ◌>>=◌, ◌>>◌, with_some, skip}
use warden_core.Store.{
  get_step, find_step, save_step, hook, emit, is_forward, release_worker_claim_for_retry,
}
use warden_core.Engine.Failure.{dict_of, apply_step_failure_lifecycle, fail_step}
use warden_core.Engine.Hold.{
  resume_saga_running_from_hitl, clear_worker_result_ingest_dedup, reset_step_for_hitl_retry,
  hitl_retry_allowed,
}
use warden_core.Engine.Command.{command_of, is_single, checked}
use warden_core.Engine.Trigger.{trigger_step}
use warden_core.Engine.Chain.{Chain}
use warden_core.Engine.Handlers.Results.{output_schema_error, finish}

module _ (env : Env) (c : Chain) where
  -- the commit branch of handle_hitl_approved
  unfoldable pub approve_commit : Saga → Step → Event → Action
  approve_commit saga step e =
      if not (is_single step.spec.tools_allow)
      then fail_step env c.wake saga.trace_id step.span_id "VALIDATION_ERROR"
          "Commit step must have exactly one tool in tools_allow"
      else (do
        hook (hitl_approved step.span_id StepKind.commit (is_some e.output) step.resolved_arguments)
        command ← checked env (do_commit (command_of step))
        resume_saga_running_from_hitl saga.trace_id "hitl_approved_commit"
        hook
            (step_transition step.span_id step.status StepStatus.in_progress "hitl_approved_commit")
        save_step step.span_id
            (λ r. record r { status = StepStatus.in_progress; pending_review_payload = none })
        emit env (record {
          namespace = saga.namespace;
          saga_trace_id = saga.trace_id;
          step_span_id = step.span_id;
          key = text_key step.idempotency_key;
          payload = command;
        })
        hook (step_scheduled step.span_id)
        hook (step_started step.span_id StepStatus.awaiting_human))

  -- its branch for every other kind
  unfoldable pub approve_output : Saga → Step → Event → Action
  approve_output saga step e =
      with_some (or_else e.output step.pending_review_payload) skip λ output.
        with_some (output_schema_error env step.spec.output_schema output)
          (do
            hook (
                hitl_approved step.span_id StepKind.reason (is_some e.output)
                  (if is_dict output then output else empty_dict))
            finish env c saga.trace_id step.span_id output)
          (fail_step env c.wake saga.trace_id step.span_id "OUTPUT_SCHEMA_VALIDATION_FAILED")

  -- handle_hitl_approved
  unfoldable pub handle_hitl_approved : Saga → Event → Action
  handle_hitl_approved saga e = do
    found ← find_step saga.trace_id e.step_span_id
    with_some found skip λ step.
        if not (is_awaiting_human step.status)
        then skip
        else if is_commit step.spec.step_kind
        then approve_commit saga step e
        else approve_output saga step e

  abbrev pub rejection : Option Json → Json
  rejection given = elim (dict_of given) [
    | none ↦ obj (field "code" (str "HUMAN_REJECTED") end)
    | some d ↦ if truthy d then d else obj (field "code" (str "HUMAN_REJECTED") end)
  ]

  abbrev pub code_text : Option Json → String
  code_text (some (str s)) = if s == "" then "HUMAN_REJECTED" else s
  code_text _ = "HUMAN_REJECTED"

  -- handle_human_rejected
  unfoldable pub handle_human_rejected : Saga → Event → Action
  handle_human_rejected saga e = do
    found ← find_step saga.trace_id e.step_span_id
    with_some found skip λ step. if not (is_awaiting_human step.status) then skip else (do
      let given = rejection e.error_details
      hook (hitl_rejected step.span_id (code_text (get_key "code" given)))
      apply_step_failure_lifecycle env c.wake saga.trace_id step.span_id given)

  -- `saga.status not in (AWAITING_HUMAN, RUNNING)`
  abbrev pub accepts_retry : SagaStatus → Bool
  accepts_retry SagaStatus.awaiting_human = true
  accepts_retry SagaStatus.running = true
  accepts_retry _ = false

  -- handle_human_retry, past its guards
  unfoldable pub retry_step : Saga → Step → Option String → Action
  retry_step saga step guidance = do
    let t = saga.trace_id
    prior ← reset_step_for_hitl_retry env t step.span_id
    release_worker_claim_for_retry prior
    clear_worker_result_ingest_dedup t step.span_id saga.namespace
    save_step step.span_id (λ r. record r { hitl_retry_count = suc r.hitl_retry_count })
    counted ← get_step step.span_id
    hook (hitl_retry_requested step.span_id prior counted.idempotency_key counted.hitl_retry_count)
    resume_saga_running_from_hitl t "human_retry"
    hook (
        step_transition step.span_id StepStatus.awaiting_human StepStatus.in_progress "human_retry")
    trigger_step env c.wake c.schedule_next t step.forward_seq (record {
      start_from = some StepStatus.awaiting_human;
      from_awaiting_human = true;
      retry_in_progress = false;
      guidance = guidance;
    })

  -- handle_human_retry
  unfoldable pub handle_human_retry : Saga → Event → Action
  handle_human_retry saga e = do
    found ← find_step saga.trace_id e.step_span_id
    with_some found skip λ step.
        if is_forward step
          && is_awaiting_human step.status
          && accepts_retry saga.status
          && hitl_retry_allowed step
        then retry_step saga step (stripped e.retry_guidance)
        else skip
