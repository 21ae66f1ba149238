-- ===== src/Delivery/Worker.antt =====
-- workers/logic.py: how a worker takes a command up and reports its result. The adapter that runs the
-- command is not in this repository's core: what it returned is a parameter.
use warden_core.Prelude.{String, Bool, true, false, some, if◌then◌else◌}
use warden_core.Json.{Json, str, obj, end, field}
use warden_core.Model.{
  EventType, Message, saga_event, event_key, execution_completed, execution_failed, result_emitted,
  command_rejected, Env,
}
use warden_core.Tx.{Action, value_error, raise, ◌>>=◌, ◌>>◌, when, with_some, skip, in_transaction}
use warden_core.Store.{emit, hook}
use warden_core.Delivery.Claims.{
  claim_idempotency_key, mark_claim_result_emitted, verify_claim_before_emit, release_command_claim,
}

-- The coordinates of a command: its saga, its step, and its key.
pub record Scope : Type 0 where
  pub namespace : String
  pub saga_trace_id : String
  pub step_span_id : String
  pub idempotency_key : String

-- The outbox row of a result event.
unfoldable pub result_message : Scope → EventType → Json → Message
result_message s e output = record {
  namespace = s.namespace;
  saga_trace_id = s.saga_trace_id;
  step_span_id = s.step_span_id;
  key = event_key s.saga_trace_id e s.step_span_id;
  payload = saga_event e output;
}

-- The event types that report_result knows.
abbrev pub is_reported : EventType → Bool
is_reported EventType.step_completed = true
is_reported EventType.step_failed = true
is_reported EventType.step_compensated = true
is_reported EventType.compensation_failed = true
is_reported _ = false

module _ (env : Env) where
  -- _emit_step_completed and report_result: an event of another type is dropped.
  unfoldable pub report_result : Scope → EventType → Json → Action
  report_result s e output = if is_reported e then emit env (result_message s e output) else skip

  -- _finalize_success
  unfoldable pub finalize_success : Scope → String → EventType → Json → Action
  finalize_success s token e output = in_transaction (do
    owned ← mark_claim_result_emitted s.idempotency_key token
    when owned (do
      report_result s e output
      hook (execution_completed s.step_span_id)
      hook (result_emitted s.step_span_id e)))

  -- _finalize_failure, inside a transaction
  unfoldable pub write_failure : Scope → String → EventType → Json → Action
  write_failure s token e output = do
    owned ← verify_claim_before_emit s.idempotency_key token
    when owned (do
      report_result s e output
      hook (execution_failed s.step_span_id)
      hook (result_emitted s.step_span_id e)
      release_command_claim s.idempotency_key (some token))

  -- _finalize_failure
  unfoldable pub finalize_failure : Scope → String → EventType → Json → Action
  finalize_failure s token e output = in_transaction (write_failure s token e output)

  -- _finalize_adapter_resolution_failure
  unfoldable pub finalize_adapter_resolution_failure : Scope → String → String → Action
  finalize_adapter_resolution_failure s token error = in_transaction (
      write_failure s token EventType.step_failed
        (obj (field "error" (str error) (field "code" (str "adapter_resolution_failed") end))))

  -- _finalize_worker_config_load_failure; the cut of the text at 512 characters is left out.
  unfoldable pub finalize_worker_config_load_failure :
      Scope → Bool → String → String → String → Action
  finalize_worker_config_load_failure s undo token error error_code = in_transaction (do
    hook (command_rejected error_code)
    write_failure s token (if undo then EventType.compensation_failed else EventType.step_failed)
        (obj (field "error" (str error) (field "code" (str error_code) end))))

-- What becomes of a command before the adapter runs: _prepare_worker_command, load_worker_config and
-- resolve_adapter each may fail, and a step whose prompt did not load raises.
pub data Execution : Type 0 where
  unprepared : String → Execution
  unloaded : String → String → Execution
  unresolved : String → Execution
  unprompted : Execution
  returned : Json → Execution
  threw : Json → Execution

module _ (env : Env) where
  -- The rest of handle_worker_command once the claim is made: _run_forward_command and
  -- _run_compensation_command, or the report of what failed before them. `undo` tells a compensation.
  unfoldable pub run_command : Scope → Bool → String → Execution → Action
  run_command s undo token (unprepared error) =
      finalize_worker_config_load_failure env s undo token error "worker_config_load_failed"
  run_command s undo token (unloaded error code) =
      finalize_worker_config_load_failure env s undo token error code
  run_command s undo token (unresolved error) =
      finalize_adapter_resolution_failure env s token error
  run_command s undo token unprompted =
      raise (value_error "DO_STEP prepare did not load prompt_template")
  run_command s undo token (returned output) =
      finalize_success env s token
        (if undo then EventType.step_compensated else EventType.step_completed) output
  run_command s undo token (threw output) =
      finalize_failure env s token
        (if undo then EventType.compensation_failed else EventType.step_failed) output

  -- handle_worker_command, for a command that parses
  unfoldable pub handle_worker_command : Scope → Bool → Execution → Action
  handle_worker_command s undo execution = do
    claim ← claim_idempotency_key env s.idempotency_key s.namespace
    with_some claim skip (λ token. run_command s undo token execution)
