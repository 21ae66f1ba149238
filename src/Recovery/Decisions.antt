-- ===== src/Recovery/Decisions.antt =====
-- engine/hitl_decisions.py: a reviewer's decision or a manual retry is checked and put in the outbox.
use Prim.Native.String.{◌++◌ as join}
use warden_core.Prelude.{
  suc, String, Bool, not, ◌&&◌, Option, none, some, ◌==◌, eqb, if◌then◌else◌, find_first,
}
use warden_core.Json.{Json, str, obj, end, field, null}
use warden_core.Text.{stripped}
use warden_core.Model.{
  OutboxStatus, EventType, Step, text_key, saga_event, Message, OutboxRow, hitl_decision_queued,
  hitl_retry_queued, Env, is_awaiting_human, row_is_failed,
}
use warden_core.Tx.{
  Tx, Action, decision_not_found, decision_conflict, retry_limit, invalid_decision, pure, raise,
  reads, ◌>>=◌, ◌>>◌, with_some, in_transaction,
}
use warden_core.Store.{has_span, is_forward, is_command, same_key, hook, emit}
use warden_core.Engine.Hold.{hitl_retry_allowed}
use warden_core.Delivery.Queue.{set_rows}
use warden_core.Recovery.Claims.{demand}
use warden_core.Recovery.Idempotency.{token_or_fresh}

-- human_decision_idempotency_key
unfoldable pub human_decision_idempotency_key : String → String → String
human_decision_idempotency_key t span = join "human-decision-" (join t (join "-" span))

-- human_retry_outbox_idempotency_key
unfoldable pub human_retry_outbox_idempotency_key : String → String → String → String
human_retry_outbox_idempotency_key t span token =
    join "human-retry:" (join t (join ":" (join span (join ":" token))))

-- _load_step_for_decision
unfoldable pub load_step_for_decision : String → String → String → Tx Step
load_step_for_decision namespace t span = do
  found ← reads (λ w.
      find_first
        (λ r. has_span span r && r.saga_trace_id == t && r.namespace == namespace && is_forward r)
        w.steps)
  with_some found (raise decision_not_found)
      (λ step. do demand (is_awaiting_human step.status) (decision_conflict step.status); pure step)

abbrev pub is_event_row : String → OutboxRow → Bool
is_event_row k r = not (is_command r.message.payload) && same_key r.message.key (text_key k)

-- The row of an earlier request under the same key: a failed one waits again.
unfoldable pub answer_existing : OutboxRow → Tx String
answer_existing row =
    if row_is_failed row.status
    then (do set_rows (λ r. eqb r.id row.id) OutboxStatus.pending; pure "requeued")
    else pure "already_queued"

-- The outbox row of a HumanApproved, HumanRejected or HumanRetry payload.
abbrev pub human_message : String → String → String → String → EventType → Json → Message
human_message namespace t span k e body = record {
  namespace = namespace;
  saga_trace_id = t;
  step_span_id = span;
  key = text_key k;
  payload = saga_event e body;
}

abbrev pub optional : String → Option Json → Json
optional name none = obj (field name null end)
optional name (some j) = obj (field name j end)

module _ (env : Env) (namespace t span : String) where
  -- _resolve_decision_event
  unfoldable pub resolve_decision_event : String → String → Option Json → Option Json → Tx Message
  resolve_decision_event decision k output error_details =
      if decision == "APPROVE"
      then pure
          (human_message namespace t span k EventType.human_approved (optional "output" output))
      else if decision == "REJECT"
      then pure (
          human_message namespace t span k EventType.human_rejected
            (optional "error_details" error_details))
      else raise (invalid_decision decision)

  -- _emit_human_decision
  unfoldable pub emit_human_decision : String → String → Option Json → Option Json → Action
  emit_human_decision decision k output error_details = do
    message ← resolve_decision_event decision k output error_details
    hook (hitl_decision_queued span decision)
    emit env message

  -- enqueue_human_decision: the status of the answer
  unfoldable pub enqueue_human_decision : String → Option Json → Option Json → Tx String
  enqueue_human_decision decision output error_details = in_transaction (do
    let k = human_decision_idempotency_key t span
    existing ← reads (λ w. find_first (is_event_row k) w.outbox)
    with_some existing
        (do
          _ ← load_step_for_decision namespace t span
          emit_human_decision decision k output error_details
          pure "queued")
        answer_existing)

  abbrev pub guidance_json : Option String → Option Json
  guidance_json none = none
  guidance_json (some s) = some (str s)

  -- enqueue_hitl_retry, once its token is known
  unfoldable pub queue_hitl_retry : String → Option String → Tx String
  queue_hitl_retry token guidance = in_transaction (do
    let k = human_retry_outbox_idempotency_key t span token
    existing ← reads (λ w. find_first (is_event_row k) w.outbox)
    with_some existing
        (do
          step ← load_step_for_decision namespace t span
          demand (hitl_retry_allowed step) retry_limit
          hook (hitl_retry_queued span k (suc step.hitl_retry_count))
          emit env (
              human_message namespace t span k EventType.human_retry
                (optional "retry_guidance" (guidance_json (stripped guidance))))
          pure "queued")
        answer_existing)

  -- enqueue_hitl_retry
  unfoldable pub enqueue_hitl_retry : Option String → Option String → Tx String
  enqueue_hitl_retry retry_token guidance = do
    token ← token_or_fresh env retry_token
    queue_hitl_retry token guidance
