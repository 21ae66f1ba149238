-- ===== src/Delivery.antt =====
-- The delivery of outbox rows and the claims of workers on the commands in them.
pub mod Queue
pub mod Claims
pub mod Worker
