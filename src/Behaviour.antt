-- ===== src/Behaviour.antt =====
-- What the engine's parts do, as theorems about the definitions under Engine.
pub mod Redelivery
pub mod Lifo
pub mod Segments
pub mod Joins
pub mod Late
pub mod Commit
pub mod Window
pub mod Undo
pub mod Attempts
pub mod Restart
