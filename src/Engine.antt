-- ===== src/Engine.antt =====
-- engine/logic.py, engine/loop_control.py and engine/child_sagas.py: the saga state machine.
pub mod Terminal
pub mod Compensation
pub mod Children
pub mod Blueprint
pub mod Failure
pub mod Hold
pub mod Policy
pub mod Command
pub mod Start
pub mod Advance
pub mod Join
pub mod Trigger
pub mod Chain
pub mod Handlers
