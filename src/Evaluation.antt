-- ===== src/Evaluation.antt =====
-- backend/app/services/evaluation.py: usage in, warnings and enforcement out.
pub mod Result
pub mod State
pub mod Messages
pub mod Rollover
pub mod Evaluate
pub mod Usage
pub mod Carryover
pub mod Soundness
