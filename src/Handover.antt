-- ===== src/Handover.antt =====
-- What the delivery of commands and their claims guarantees.
pub mod Claims
pub mod Guarded
pub mod Writes
pub mod Workers
pub mod Runs
pub mod Once
pub mod Numbered
pub mod Reap
pub mod Delivers
pub mod Closed
pub mod Unresolved
pub mod Revival
