-- ===== src/Linking.antt =====
-- The catalog, from the manifests to the start of a saga (Catalog).
mod Binds
pub mod Narrow
pub mod Wiring
mod Stripped
pub mod Again
pub mod Rows
pub mod Immutable
pub mod Stable
pub mod Starts
pub mod Frozen
pub mod Loads
pub mod Once
