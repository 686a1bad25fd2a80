-- ===== src/Model.antt =====
-- The data model: the enumerations and the database tables that the services read and write.
pub mod Calendar
pub mod Delta
pub mod Enums
pub mod Org
pub mod Limits
pub mod Log
pub mod Usage
pub mod Auth
pub mod Database
