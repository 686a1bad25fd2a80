-- ===== src/LimitsService.antt =====
-- backend/app/services/limits_service.py: creating, changing and removing limits and exemptions.
pub mod Input
pub mod Service
pub mod Exemptions
pub mod Unique
pub mod Validated
