-- ===== src/Examples.antt =====
-- The theorems at concrete sagas.
mod Data
mod Runs
mod Steps
mod Deliveries
mod Requests
mod Attempts
mod Shop
mod Catalogs
