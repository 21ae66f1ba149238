-- ===== src/Safeguards.antt =====
-- What holds for the requests of operators and reviewers (Recovery).
pub mod Replay
pub mod Decisions
pub mod Guards
pub mod Parts
pub mod Kept
pub mod Requeue
