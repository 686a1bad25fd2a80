-- ===== src/Usage.antt =====
-- backend/app/services/ingestion.py and the usage index of evaluation.py: what the tenant reports
-- for an entity.
pub mod Reading
pub mod Index
pub mod Sums
