-- ===== src/Data.antt =====
-- The rows of the database (backend/corelab_backend/models) that reservations touch.
pub mod Status
pub mod Row
pub mod Strings
pub mod Error
