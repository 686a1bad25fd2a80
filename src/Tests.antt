-- ===== src/Tests.antt =====
-- Concrete runs: a tenant with one user's roles, and the theorems at worlds of it.
pub mod Fixtures
pub mod Witnesses
pub mod Runs
pub mod Reversed
pub mod Pruned
pub mod Collected
pub mod Cycles
pub mod Imported
pub mod Undone
pub mod Regained
