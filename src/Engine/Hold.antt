-- ===== src/Engine/Hold.antt =====
-- engine/logic.py and common/hitl_retry.py: the hold for human review, its release, and the limit on
-- manual retries.
use Prim.Native.String.{◌++◌ as join}
use warden_core.Prelude.{
  ℕ, zero, suc, ◌-◌, String, Bool, true, ◌&&◌, ◌||◌, Option, none, some, ◌==◌, eqb, if◌then◌else◌,
  is_some, get_or, or_else, keep, not,
}
use warden_core.Json.{Json, num, str, obj, end, field, set_key}
use warden_core.Text.{stripped}
use warden_core.Model.{
  StepStatus, SagaStatus, EventType, Step, Key, event_key, OutboxRow, saga_transition,
  step_transition, hitl_review_requested, Env, saga_awaits_human,
}
use warden_core.Tx.{Tx, Action, pure, writes, ◌>>=◌, ◌>>◌, when}
use warden_core.Store.{
  get_saga, get_step, save_saga, save_step, hook, now, draw, same_key, is_command,
}
use warden_core.Engine.Terminal.{move_saga}
use warden_core.Engine.Compensation.{optional_number}

-- _enter_hitl_hold
unfoldable pub enter_hitl_hold : String → String → Json → Action
enter_hitl_hold t span pending_payload = do
  step ← get_step span
  hook (hitl_review_requested span pending_payload)
  started ← now
  save_step span (λ r. record r {
    status = StepStatus.awaiting_human;
    pending_review_payload = some pending_payload;
    hitl_review_started_at = some started;
  })
  saga ← get_saga t
  save_saga t (λ s. record s { status = SagaStatus.awaiting_human })
  hook (step_transition span step.status StepStatus.awaiting_human "hitl_review_requested")
  hook (saga_transition t saga.status SagaStatus.awaiting_human "hitl_review_requested")

-- _resume_saga_running_from_hitl
unfoldable pub resume_saga_running_from_hitl : String → String → Action
resume_saga_running_from_hitl t reason = do
  saga ← get_saga t
  when (saga_awaits_human saga.status) (move_saga t SagaStatus.running reason)

-- _rotate_step_idempotency_key_for_retry; the token is the start of a fresh uuid.
abbrev pub rotated_key : String → String → String → String
rotated_key trace step_id token = join trace (join "-" (join step_id (join "-retry-" token)))

-- The two result events of a worker, whose dedup rows a retry drops.
abbrev pub is_result_key : String → String → Key → Bool
is_result_key t span k =
    same_key k (event_key t EventType.step_completed span)
    || same_key k (event_key t EventType.step_failed span)

-- _clear_worker_result_ingest_dedup
unfoldable pub clear_worker_result_ingest_dedup : String → String → String → Action
clear_worker_result_ingest_dedup t span namespace = do
  writes (λ w. record w { ingested = keep (λ k. not (is_result_key t span k)) w.ingested })
  writes (λ w. record w {
    outbox =
        keep
          (λ (r : OutboxRow). not (
            r.message.namespace == namespace
            && not (is_command r.message.payload)
            && is_result_key t span r.message.key))
          w.outbox;
  })

-- _reset_step_for_hitl_retry; returns the prior key.
unfoldable pub reset_step_for_hitl_retry : Env → String → String → Tx String
reset_step_for_hitl_retry env t span = do
  step ← get_step span
  token ← draw env
  save_step span (λ r. record r {
    idempotency_key = rotated_key t r.spec.step_id token;
    pending_review_payload = none;
    output_payload = none;
    error_details = none;
    end_time = none;
    hitl_review_started_at = none;
  })
  pure step.idempotency_key

-- hitl_retries_remaining
unfoldable pub hitl_retries_remaining : Step → Option ℕ
hitl_retries_remaining step = elim step.spec.hitl_max_retries [
  | none ↦ none
  | some n ↦ some (n - step.hitl_retry_count)
]

-- assert_hitl_retry_allowed, as a test
unfoldable pub hitl_retry_allowed : Step → Bool
unfolding hitl_retries_remaining
hitl_retry_allowed step = elim (hitl_retries_remaining step) [
  | none ↦ true
  | some n ↦ not (eqb n 0)
]

-- `bool(text)` on an optional text
abbrev non_empty : Option String → Option String
non_empty none = none
non_empty (some s) = if s == "" then none else some s

abbrev guidance_text : Option String → Option String → String
guidance_text over own = get_or (stripped (or_else (non_empty over) own)) ""

-- merge_hitl_retry_into_arguments
unfoldable pub merge_hitl_retry_into_arguments : Json → Step → Option String → ℕ → Json
merge_hitl_retry_into_arguments worker_args step guidance_override zero =
    if is_some (non_empty guidance_override) || is_some (non_empty step.spec.hitl_retry_guidance)
    then set_key "_hitl_retry"
        (obj (
          field "attempt" (num 0) (
            field "max_retries" (optional_number step.spec.hitl_max_retries) (
              field "guidance" (str (guidance_text guidance_override step.spec.hitl_retry_guidance))
                end))))
        worker_args
    else worker_args
merge_hitl_retry_into_arguments worker_args step guidance_override (suc n) =
    set_key "_hitl_retry"
      (obj (
        field "attempt" (num (suc n)) (
          field "max_retries" (optional_number step.spec.hitl_max_retries) (
            field "guidance" (str (guidance_text guidance_override step.spec.hitl_retry_guidance))
              end))))
      worker_args
