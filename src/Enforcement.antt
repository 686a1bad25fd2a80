-- ===== src/Enforcement.antt =====
-- backend/app/services/enforcement.py: applying and reversing restrictions.
pub mod Plan
pub mod Messages
pub mod Perform
pub mod Apply
pub mod Restore
pub mod Untouched
pub mod Rows
pub mod Snapshots
pub mod Soundness
pub mod RestoreSoundness
pub mod Undone
pub mod Regained
pub mod Released
pub mod Allowed
