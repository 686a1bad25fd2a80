-- ===== src/Cycle.antt =====
-- backend/app/services/cycle.py: the scheduler's cycle and the lock that keeps two cycles apart.
pub mod Lock
pub mod Exclusion
pub mod Steps
pub mod Run
pub mod Finished
