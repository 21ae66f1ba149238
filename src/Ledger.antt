-- ===== src/Ledger.antt =====
-- The relation between the tables before and after a transaction, and the proofs that the operations
-- of the engine keep it, in the order of the modules under Engine.
pub mod Relation
pub mod Slots
pub mod Primitives
pub mod Steps
pub mod Chains
pub mod Dispatch
pub mod Ingest
