-- ===== src/Model.antt =====
-- common/models.py and common/contracts.py: the rows of the database, the ingest events, the
-- messages of the outbox, and the database as one record.
mod Status
mod Rows
mod Events
mod Database
unfoldable pub use Status.*
unfoldable pub use Rows.*
unfoldable pub use Events.*
unfoldable pub use Database.*
