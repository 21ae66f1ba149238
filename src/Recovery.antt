-- ===== src/Recovery.antt =====
-- engine/recovery.py, engine/recovery_idempotency.py and engine/hitl_decisions.py: what operators and
-- reviewers ask of a saga.
pub mod Idempotency
pub mod Claims
pub mod Retry
pub mod Compensate
pub mod Decisions
