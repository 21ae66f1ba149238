-- ===== src/Model/Events.antt =====
-- The ingest events of common/contracts.py, the worker commands and saga notifications that the
-- engine writes to the outbox, and the hooks that it calls on its plugin registry.
use warden_core.Prelude.{ℕ, String, Bool, Option, List, [], ◌∷◌}
use warden_core.Json.{Json}
use warden_core.Model.Status.{StepStatus, SagaStatus, StepKind, EventType, OutboxStatus}

-- SagaIngestEvent: the envelope, and the fields of its variants.
pub record Event : Type 0 where
  pub event_type : EventType
  pub namespace : String
  pub saga_trace_id : String
  pub step_span_id : String
  pub output : Option Json
  pub error_details : Option Json
  pub retry_guidance : Option String

-- `{saga_trace_id}:{event_type}:{step_span_id}` and the text keys of the worker commands. Trace and
-- span ids are hexadecimal and hold no colon, so the three parts stand for the text.
pub data Key : Type 0 where
  event_key : String → EventType → String → Key
  text_key : String → Key

-- DoStepCommand, DoCommitCommand, DoCompensationCommand
pub record Command : Type 0 where
  pub worker_name : String
  pub worker_version : String
  pub idempotency_key : String
  pub prompt_ref : Option String
  pub arguments : Json
  pub tool_specs : List String
  pub resource_specs : List String
  pub skill_specs : List String

pub record Undo : Type 0 where
  pub worker_name : String
  pub worker_version : String
  pub idempotency_key : String
  pub forward_step_span_id : String
  pub original_input : Json
  pub failure_reason : Option Json
  pub tool_specs : List String
  pub resource_specs : List String
  pub worker_snapshot : Option String

pub data Payload : Type 0 where
  do_step : Command → Payload
  do_commit : Command → Payload
  execute_compensation : Undo → Payload
  saga_event : EventType → Json → Payload

-- What an OutboxEvent says.
pub record Message : Type 0 where
  pub namespace : String
  pub saga_trace_id : String
  pub step_span_id : String
  pub key : Key
  pub payload : Payload

-- OutboxEvent: the message, and how far its delivery is. Rows are listed in the order of `created_at`,
-- and numbered in that order in place of their uuids.
pub record OutboxRow : Type 0 where
  pub id : ℕ
  pub message : Message
  pub status : OutboxStatus
  pub updated_at : ℕ

abbrev pub messages : List OutboxRow → List Message
messages [] = []
messages (r ∷ rs) = r.message ∷ messages rs

-- ProcessedCommand: the claim of a worker on the key of a command.
pub record Claim : Type 0 where
  pub idempotency_key : String
  pub namespace : String
  pub claim_token : String
  pub result_emitted : Bool
  pub created_at : ℕ

-- What a recovery request is answered with; `idempotency_key` stands for `worker_command_key` as well,
-- which the source always sets to the same text.
pub record Response : Type 0 where
  pub status : String
  pub idempotency_key : String
  pub recovery_token : String

-- ProcessedOperatorRecovery
pub record Recovery : Type 0 where
  pub dedup_key : String
  pub request_fingerprint : String
  pub response : Response

-- The hooks of common/plugins/protocols.py, in the order in which they are called.
pub data Hook : Type 0 where
  saga_transition : String → SagaStatus → SagaStatus → String → Hook
  step_transition : String → StepStatus → StepStatus → String → Hook
  saga_created : String → ℕ → Hook
  step_created : String → Hook
  step_scheduled : String → Hook
  step_started : String → StepStatus → Hook
  steps_skipped_summary : String → ℕ → String → Hook
  compensation_scheduled : String → String → Hook
  ingest_deduplicated : Key → String → Hook
  hitl_review_requested : String → Json → Hook
  hitl_approved : String → StepKind → Bool → Json → Hook
  hitl_rejected : String → String → Hook
  hitl_retry_requested : String → String → String → ℕ → Hook
  command_claimed command_rejected : String → Hook
  execution_completed execution_failed : String → Hook
  result_emitted : String → EventType → Hook
  operator_recovery_requested : String → String → String → String → Hook
  hitl_decision_queued : String → String → Hook
  hitl_retry_queued : String → String → ℕ → Hook
  policy_evaluated policy_denied policy_errored : String → Hook
