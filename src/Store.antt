-- ===== src/Store.antt =====
-- internal/store
pub mod Tables
pub mod Pairs
pub mod Jobs
pub mod Reports
pub mod Requests
pub mod Lookup
pub mod Evolution
pub mod Races
pub mod Inserts
pub mod Reserving
pub mod Machine
pub mod Agreement
pub mod Builds
pub mod Idempotency
pub mod Nodes
pub mod Stale
