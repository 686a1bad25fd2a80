-- ===== src/Ingestion.antt =====
-- backend/app/services/ingestion.py: polling the reported consumption and attributing it.
pub mod Users
pub mod Attribution
pub mod Dimension
pub mod Run
pub mod Emptied
pub mod Sums
pub mod Conserved
pub mod Pinned
pub mod Rejected
