-- ===== src/Recovery/Compensate.antt =====
-- engine/recovery.py: retry of an undo step, and the start of compensation from a hold.
use warden_core.Prelude.{
  ℕ, zero, suc, String, Bool, true, false, ◌&&◌, Option, none, some, ◌==◌, if◌then◌else◌,
  find_first, is_some,
}
use warden_core.Json.{Json, is_dict, empty_dict}
use warden_core.Model.{
  SagaStatus, StepStatus, Saga, Step, Response, text_key, execute_compensation,
  operator_recovery_requested, Env,
}
use warden_core.Tx.{
  Tx, Action, recovery_not_found, recovery_conflict, pure, raise, reads, ◌>>=◌, ◌>>◌, when,
  with_some, skip,
}
use warden_core.Store.{save_saga, save_step, hook, emit}
use warden_core.Engine.Terminal.{move_saga, fail_saga_no_compensation_window}
use warden_core.Engine.Compensation.{is_dirty_forward_step}
use warden_core.Engine.Compensation.Walk.{compensation_command, advance_lifo_compensation}
use warden_core.Engine.Chain.{Chain}
use warden_core.Recovery.Idempotency.{Request, token_or_fresh, with_operator_recovery_idempotency}
use warden_core.Recovery.Claims.{
  demand, load_saga_step_locked, handle_active_claim, requeue_worker_outbox,
  clear_compensation_ingest_dedup,
}
use warden_core.Recovery.Retry.{answer, assert_awaiting_recovery_forward}

abbrev pub some_is : Option String → String → Bool
some_is none i = false
some_is (some j) i = i == j

-- `saga.status in (COMPENSATING, FAILED)`
abbrev pub may_retry_undo : SagaStatus → Bool
may_retry_undo SagaStatus.compensating = true
may_retry_undo SagaStatus.failed = true
may_retry_undo _ = false

abbrev pub saga_is_failed : SagaStatus → Bool
saga_is_failed SagaStatus.failed = true
saga_is_failed _ = false

-- `comp_step.status in (FAILED, IN_PROGRESS, COMPENSATING)`
abbrev pub is_retriable_undo : StepStatus → Bool
is_retriable_undo StepStatus.failed = true
is_retriable_undo StepStatus.in_progress = true
is_retriable_undo StepStatus.compensating = true
is_retriable_undo _ = false

abbrev pub request : String → String → String → String → Option String → Bool → Request
request kind namespace t span token force = record {
  namespace = namespace;
  recovery_kind = kind;
  trace_id = t;
  step_span_id = span;
  recovery_token = token;
  force = force;
  allow_destructive = none;
}

module _ (env : Env) (c : Chain) where
  -- _emit_compensation_retry, with _build_compensation_command_for_step
  unfoldable pub emit_compensation_retry : Saga → Step → Step → Action
  emit_compensation_retry saga undo forward = do
    command ← reads (λ w. compensation_command env w saga forward undo.span_id undo.idempotency_key)
    with_some (env.command_error (execute_compensation command))
        (emit env (record {
          namespace = saga.namespace;
          saga_trace_id = saga.trace_id;
          step_span_id = undo.span_id;
          key = text_key command.idempotency_key;
          payload = execute_compensation command;
        }))
        (λ e. raise (recovery_conflict e))

  -- the forward row that an undo row stands for
  unfoldable pub forward_of : String → Step → Tx Step
  forward_of t undo = do
    found ← reads (λ w.
        find_first (λ r. some_is undo.compensates_span_id r.span_id && r.saga_trace_id == t)
          w.steps)
    with_some found (raise recovery_not_found) pure

  -- _execute_compensation_retry, past its guards
  unfoldable pub retry_undo : String → Saga → Step → Step → String → Bool → Tx Response
  retry_undo namespace saga undo forward token force = do
    let t = saga.trace_id
    when (saga_is_failed saga.status)
        (save_saga t (λ s. record s { status = SagaStatus.compensating }))
    save_step undo.span_id
        (λ r. record r { status = StepStatus.compensating; error_details = none; end_time = none })
    clear_compensation_ingest_dedup t undo.span_id
    handle_active_claim env undo.idempotency_key force
    requeued ← requeue_worker_outbox env namespace undo.idempotency_key force
    if requeued then skip else emit_compensation_retry saga undo forward
    hook (
        operator_recovery_requested undo.span_id "retry-compensation" undo.idempotency_key
          undo.idempotency_key)
    pure (answer (if requeued then "requeued" else "scheduled") undo.idempotency_key token)

  -- _execute_compensation_retry
  unfoldable pub execute_compensation_retry : String → String → String → String → Bool → Tx Response
  execute_compensation_retry namespace t span token force = do
    (saga, undo) ← load_saga_step_locked namespace t span
    demand (is_some undo.compensates_span_id)
        (recovery_conflict "retry-compensation applies to compensation steps only.")
    demand (may_retry_undo saga.status) (recovery_conflict "expected COMPENSATING or FAILED.")
    demand (is_retriable_undo undo.status)
        (recovery_conflict "expected FAILED, IN_PROGRESS, or COMPENSATING.")
    forward ← forward_of t undo
    retry_undo namespace saga undo forward token force

  abbrev pub details_or_empty : Option Json → Json
  details_or_empty none = empty_dict
  details_or_empty (some j) = if is_dict j then j else empty_dict

  abbrev pub started : Step → String → String → Tx Response
  started step status token = do
    hook (
        operator_recovery_requested step.span_id "start-compensation" step.idempotency_key
          step.idempotency_key)
    pure (answer status step.idempotency_key token)

  -- the body of _execute_start_compensation; `n` is the source's sequence number plus one
  unfoldable pub start_walk : String → Step → String → ℕ → Tx Response
  start_walk t step token zero = do
    fail_saga_no_compensation_window env c.wake t step (details_or_empty step.error_details)
    started step "failed" token
  start_walk t step token (suc n) = do
    move_saga t SagaStatus.compensating "start_compensation"
    advance_lifo_compensation env c.wake t (suc n)
    started step "scheduled" token

  -- _execute_start_compensation
  unfoldable pub execute_start_compensation : String → String → String → String → Tx Response
  execute_start_compensation namespace t span token = do
    (saga, step) ← load_saga_step_locked namespace t span
    assert_awaiting_recovery_forward env c saga step
    start_walk t step token
        (if is_dirty_forward_step step then suc step.forward_seq else step.forward_seq)

  -- enqueue_compensation_retry
  unfoldable pub enqueue_compensation_retry :
      String → String → String → Option String → Bool → Tx Response
  enqueue_compensation_retry namespace t span recovery_token force = do
    token ← token_or_fresh env recovery_token
    with_operator_recovery_idempotency env
        (request "retry-compensation" namespace t span recovery_token force)
        (execute_compensation_retry namespace t span token force)

  -- enqueue_start_compensation
  unfoldable pub enqueue_start_compensation :
      String → String → String → Option String → Bool → Tx Response
  enqueue_start_compensation namespace t span recovery_token force = do
    token ← token_or_fresh env recovery_token
    with_operator_recovery_idempotency env
        (request "start-compensation" namespace t span recovery_token force)
        (execute_start_compensation namespace t span token)
