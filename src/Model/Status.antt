-- ===== src/Model/Status.antt =====
-- The enumerations of common/models.py, and the tests that the engine makes on them.
use warden_core.Prelude.{ℕ, String, Bool, true, false}

pub data StepStatus : Type 0 where
  pending in_progress completed failed compensating compensated skipped timed_out awaiting_human :
      StepStatus

pub data SagaStatus : Type 0 where
  pending running awaiting_human awaiting_recovery compensating completed failed compensated :
      SagaStatus

pub data OutboxStatus : Type 0 where
  pending in_progress completed failed : OutboxStatus

pub data EventType : Type 0 where
  saga_started step_completed step_failed step_compensated saga_completed saga_compensated
        saga_failed compensation_failed human_approved human_rejected human_retry :
      EventType

-- `step_kind`: WORKER_STEP_KINDS and ENGINE_NATIVE_STEP_KINDS of common/schemas/saga.py; `other`
-- stands for any further text in the column.
pub data StepKind : Type 0 where
  reason commit spawn_sagas join_sagas other : StepKind

pub data OnFailure : Type 0 where
  auto_compensate await_operator : OnFailure

-- The topics of common/topics.py.
pub data Topic : Type 0 where
  worker_commands orchestrator_events : Topic

-- Each event type by its place, to compare two of them.
abbrev pub event_number : EventType → ℕ
event_number EventType.saga_started = 0
event_number EventType.step_completed = 1
event_number EventType.step_failed = 2
event_number EventType.step_compensated = 3
event_number EventType.saga_completed = 4
event_number EventType.saga_compensated = 5
event_number EventType.saga_failed = 6
event_number EventType.compensation_failed = 7
event_number EventType.human_approved = 8
event_number EventType.human_rejected = 9
event_number EventType.human_retry = 10

abbrev pub is_pending : StepStatus → Bool
is_pending StepStatus.pending = true
is_pending _ = false

abbrev pub is_in_progress : StepStatus → Bool
is_in_progress StepStatus.in_progress = true
is_in_progress _ = false

abbrev pub is_completed : StepStatus → Bool
is_completed StepStatus.completed = true
is_completed _ = false

abbrev pub is_awaiting_human : StepStatus → Bool
is_awaiting_human StepStatus.awaiting_human = true
is_awaiting_human _ = false

abbrev pub is_timed_out : StepStatus → Bool
is_timed_out StepStatus.timed_out = true
is_timed_out _ = false

abbrev pub is_compensating : StepStatus → Bool
is_compensating StepStatus.compensating = true
is_compensating _ = false

abbrev pub is_compensated : StepStatus → Bool
is_compensated StepStatus.compensated = true
is_compensated _ = false

-- `status in (FAILED, TIMED_OUT)`
abbrev pub is_failure : StepStatus → Bool
is_failure StepStatus.failed = true
is_failure StepStatus.timed_out = true
is_failure _ = false

abbrev pub saga_is_pending : SagaStatus → Bool
saga_is_pending SagaStatus.pending = true
saga_is_pending _ = false

abbrev pub saga_is_completed : SagaStatus → Bool
saga_is_completed SagaStatus.completed = true
saga_is_completed _ = false

abbrev pub saga_is_compensating : SagaStatus → Bool
saga_is_compensating SagaStatus.compensating = true
saga_is_compensating _ = false

abbrev pub saga_awaits_human : SagaStatus → Bool
saga_awaits_human SagaStatus.awaiting_human = true
saga_awaits_human _ = false

abbrev pub saga_awaits_recovery : SagaStatus → Bool
saga_awaits_recovery SagaStatus.awaiting_recovery = true
saga_awaits_recovery _ = false

-- is_engine_native_kind of common/schemas/saga.py
abbrev pub is_engine_native_kind : StepKind → Bool
is_engine_native_kind StepKind.spawn_sagas = true
is_engine_native_kind StepKind.join_sagas = true
is_engine_native_kind _ = false

abbrev pub is_reason : StepKind → Bool
is_reason StepKind.reason = true
is_reason _ = false

abbrev pub is_commit : StepKind → Bool
is_commit StepKind.commit = true
is_commit _ = false

abbrev pub is_spawn : StepKind → Bool
is_spawn StepKind.spawn_sagas = true
is_spawn _ = false

abbrev pub is_join : StepKind → Bool
is_join StepKind.join_sagas = true
is_join _ = false

abbrev pub is_await_operator : OnFailure → Bool
is_await_operator OnFailure.await_operator = true
is_await_operator OnFailure.auto_compensate = false

-- status_value of common/utils.py
abbrev pub status_text : StepStatus → String
status_text StepStatus.pending = "PENDING"
status_text StepStatus.in_progress = "IN_PROGRESS"
status_text StepStatus.completed = "COMPLETED"
status_text StepStatus.failed = "FAILED"
status_text StepStatus.compensating = "COMPENSATING"
status_text StepStatus.compensated = "COMPENSATED"
status_text StepStatus.skipped = "SKIPPED"
status_text StepStatus.timed_out = "TIMED_OUT"
status_text StepStatus.awaiting_human = "AWAITING_HUMAN"

abbrev pub saga_status_text : SagaStatus → String
saga_status_text SagaStatus.pending = "PENDING"
saga_status_text SagaStatus.running = "RUNNING"
saga_status_text SagaStatus.awaiting_human = "AWAITING_HUMAN"
saga_status_text SagaStatus.awaiting_recovery = "AWAITING_RECOVERY"
saga_status_text SagaStatus.compensating = "COMPENSATING"
saga_status_text SagaStatus.completed = "COMPLETED"
saga_status_text SagaStatus.failed = "FAILED"
saga_status_text SagaStatus.compensated = "COMPENSATED"

-- CHILD_TERMINAL of common/child_sagas.py
abbrev pub is_terminal : SagaStatus → Bool
is_terminal SagaStatus.completed = true
is_terminal SagaStatus.failed = true
is_terminal SagaStatus.compensated = true
is_terminal _ = false

abbrev pub row_is_pending : OutboxStatus → Bool
row_is_pending OutboxStatus.pending = true
row_is_pending _ = false

abbrev pub row_is_in_progress : OutboxStatus → Bool
row_is_in_progress OutboxStatus.in_progress = true
row_is_in_progress _ = false

abbrev pub row_is_completed : OutboxStatus → Bool
row_is_completed OutboxStatus.completed = true
row_is_completed _ = false

abbrev pub row_is_failed : OutboxStatus → Bool
row_is_failed OutboxStatus.failed = true
row_is_failed _ = false
