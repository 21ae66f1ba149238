-- ===== src/Recovery/Retry.antt =====
-- engine/recovery.py: retry of a forward step, while its saga runs (retry-step) or is held for an
-- operator (retry-forward). The requests of the public functions are transactions of
-- Recovery/Idempotency.
use warden_core.Prelude.{String, Bool, true, false, not, ◌&&◌, Option, none, some, if◌then◌else◌}
use warden_core.Json.{Json, get_key, set_key, del_key, is_dict, null}
use warden_core.Model.{
  SagaStatus, StepStatus, StepKind, Step, Saga, Response, operator_recovery_requested, Env,
  is_in_progress, is_failure, is_engine_native_kind, saga_awaits_recovery,
}
use warden_core.Tx.{Tx, Action, recovery_conflict, pure, raise, ◌>>=◌, ◌>>◌, catch_claim_active}
use warden_core.Store.{get_saga, get_step, save_saga, save_step, hook, draw, is_forward}
use warden_core.Prelude.{is_some, get_or}
use warden_core.Engine.Terminal.{move_saga}
use warden_core.Engine.Compensation.{is_dirty_forward_step}
use warden_core.Engine.Hold.{rotated_key, clear_worker_result_ingest_dedup}
use warden_core.Engine.Advance.{context_of, finalize_step_output_and_advance}
use warden_core.Engine.Join.{try_complete_join}
use warden_core.Engine.Trigger.{Options, trigger_step}
use warden_core.Engine.Chain.{Chain}
use warden_core.Recovery.Idempotency.{token_or_fresh, with_operator_recovery_idempotency}
use warden_core.Recovery.Claims.{
  demand, load_saga_step_locked, enforce_commit_force_gating, handle_active_claim,
  requeue_worker_outbox,
}

abbrev pub answer : String → String → String → Response
answer status k token = record { status = status; idempotency_key = k; recovery_token = token }

abbrev pub has_key : Option Json → String → Bool
has_key none k = false
has_key (some j) k = is_dict j && is_some (get_key k j)

-- The context without the entry of one step.
abbrev pub without_step_entry : Saga → String → Json
without_step_entry saga step_id =
    if has_key (get_key "steps" (context_of saga)) step_id
    then set_key "steps" (del_key step_id (get_or (get_key "steps" (context_of saga)) null))
        (context_of saga)
    else saga.context

-- _reset_step_for_worker_retry of engine/logic.py
unfoldable pub reset_step_for_worker_retry : Env → String → String → Action
reset_step_for_worker_retry env t span = do
  step ← get_step span
  saga ← get_saga t
  token ← draw env
  clear_worker_result_ingest_dedup t span saga.namespace
  save_step span (λ r. record r {
    idempotency_key = rotated_key t r.spec.step_id token;
    pending_review_payload = none;
    output_payload = none;
    error_details = none;
    end_time = none;
  })
  save_saga t (λ s. record s { context = without_step_entry saga step.spec.step_id })

abbrev pub retrying : Option StepStatus → Options
retrying from = record {
  start_from = from;
  from_awaiting_human = false;
  retry_in_progress = true;
  guidance = none;
}

abbrev pub saga_is_running : SagaStatus → Bool
saga_is_running SagaStatus.running = true
saga_is_running _ = false

module _ (env : Env) (c : Chain) where
  -- The trigger of a step that is in progress, and the hook and the answer that end a request.
  abbrev pub trigger : String → Step → Option StepStatus → Action
  trigger t step from = trigger_step env c.wake c.schedule_next t step.forward_seq (retrying from)

  abbrev pub closing : String → String → String → String → String → String → Tx Response
  closing span kind prior k status token = do
    hook (operator_recovery_requested span kind prior k)
    pure (answer status k token)

  -- the engine-native branch of _execute_step_retry
  abbrev pub retry_native : StepKind → String → Step → String → Tx Response
  retry_native StepKind.join_sagas t step token = do
    _ ←
        try_complete_join env c.wake (finalize_step_output_and_advance env c.wake c.schedule_next) t
          step
    closing step.span_id "retry-step" step.idempotency_key step.idempotency_key "ok" token
  retry_native StepKind.spawn_sagas t step token = do
    trigger t step none
    closing step.span_id "retry-step" step.idempotency_key step.idempotency_key "scheduled" token
  retry_native _ t step token =
      raise (recovery_conflict "Unsupported engine-native step kind for retry-step")

  -- The command's row waits again, under the key that it has.
  unfoldable pub retry_requeued : String → String → Step → String → Tx Response
  retry_requeued namespace t step token = do
    save_step step.span_id (λ r. record r {
      output_payload = none;
      error_details = none;
      pending_review_payload = none;
    })
    clear_worker_result_ingest_dedup t step.span_id namespace
    closing step.span_id "retry-step" step.idempotency_key step.idempotency_key "requeued" token

  -- A new command under a new key.
  unfoldable pub retry_rescheduled : String → Step → String → Tx Response
  retry_rescheduled t step token = do
    reset_step_for_worker_retry env t step.span_id
    after ← get_step step.span_id
    trigger t step none
    closing step.span_id "retry-step" step.idempotency_key after.idempotency_key "scheduled" token

  unfoldable pub retry_released : String → String → Step → String → Bool → Tx Response
  retry_released namespace t step token force = do
    requeued ← requeue_worker_outbox env namespace step.idempotency_key force
    if requeued then retry_requeued namespace t step token else retry_rescheduled t step token

  abbrev pub claim_is_active : Step → String → Tx Response
  claim_is_active step token = pure (answer "claim_active" step.idempotency_key token)

  -- `try: await _handle_active_claim(…) except RecoveryClaimActiveError: return …`, and what follows
  unfoldable pub unless_claim_active : Step → String → Bool → Tx Response → Tx Response
  unless_claim_active step token force rest = do
    free ←
        catch_claim_active (do handle_active_claim env step.idempotency_key force; pure true)
          (pure false)
    if free then rest else claim_is_active step token

  -- _execute_step_retry
  unfoldable pub execute_step_retry : String → String → String → String → Bool → Bool → Tx Response
  execute_step_retry namespace t span token force allow_destructive = do
    (saga, step) ← load_saga_step_locked namespace t span
    demand (saga_is_running saga.status) (recovery_conflict "expected RUNNING for retry-step.")
    demand (is_forward step) (recovery_conflict "retry-step applies to forward steps only.")
    demand (is_in_progress step.status) (recovery_conflict "expected IN_PROGRESS for retry-step.")
    if is_engine_native_kind step.spec.step_kind
        then retry_native step.spec.step_kind t step token
        else do
          enforce_commit_force_gating step force allow_destructive
          unless_claim_active step token force (retry_released namespace t step token force)

  -- _assert_awaiting_recovery_forward
  unfoldable pub assert_awaiting_recovery_forward : Saga → Step → Action
  assert_awaiting_recovery_forward saga step = do
    demand (saga_awaits_recovery saga.status) (recovery_conflict "expected AWAITING_RECOVERY")
    demand (is_forward step) (recovery_conflict "applies to forward steps only.")
    demand (is_failure step.status) (recovery_conflict "expected FAILED or TIMED_OUT")

  -- _execute_retry_forward, past its guards
  unfoldable pub retry_forward : String → Step → String → Tx Response
  retry_forward t step token = do
    reset_step_for_worker_retry env t step.span_id
    after ← get_step step.span_id
    move_saga t SagaStatus.running "retry_forward"
    trigger t step (some step.status)
    closing step.span_id "retry-forward" step.idempotency_key after.idempotency_key "scheduled"
        token

  -- _execute_retry_forward
  unfoldable pub execute_retry_forward :
      String → String → String → String → Bool → Bool → Tx Response
  execute_retry_forward namespace t span token force allow_destructive = do
    (saga, step) ← load_saga_step_locked namespace t span
    assert_awaiting_recovery_forward saga step
    demand (not (is_dirty_forward_step step && not allow_destructive))
        (recovery_conflict "retry-forward on a dirty failure requires allow_destructive=true")
    enforce_commit_force_gating step force allow_destructive
    unless_claim_active step token force (retry_forward t step token)

  -- enqueue_step_retry
  unfoldable pub enqueue_step_retry :
      String → String → String → Option String → Bool → Bool → Tx Response
  enqueue_step_retry namespace t span recovery_token force allow_destructive = do
    token ← token_or_fresh env recovery_token
    with_operator_recovery_idempotency env
        (record {
          namespace = namespace;
          recovery_kind = "retry-step";
          trace_id = t;
          step_span_id = span;
          recovery_token = recovery_token;
          force = force;
          allow_destructive = some allow_destructive;
        })
        (execute_step_retry namespace t span token force allow_destructive)

  -- enqueue_retry_forward
  unfoldable pub enqueue_retry_forward :
      String → String → String → Option String → Bool → Bool → Tx Response
  enqueue_retry_forward namespace t span recovery_token force allow_destructive = do
    token ← token_or_fresh env recovery_token
    with_operator_recovery_idempotency env
        (record {
          namespace = namespace;
          recovery_kind = "retry-forward";
          trace_id = t;
          step_span_id = span;
          recovery_token = recovery_token;
          force = force;
          allow_destructive = some allow_destructive;
        })
        (execute_retry_forward namespace t span token force allow_destructive)
