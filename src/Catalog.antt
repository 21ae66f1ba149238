-- ===== src/Catalog.antt =====
-- The catalog: manifests of steps and sagas, how they are validated, registered, linked and frozen for
-- a saga that starts.
pub mod Checked
pub mod Parts
pub mod Workers
pub mod Steps
pub mod Tighten
pub mod Sagas
pub mod Hydrate
pub mod Tables
pub mod Freeze
pub mod Registry
