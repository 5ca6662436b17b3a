-- ===== src/Models.antt =====
-- backend/app/models and backend/app/core/config.py: the enums, the rows and the settings.
pub mod Enums
pub mod Listings
pub mod Rows
pub mod Settings
pub mod Db
