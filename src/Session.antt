-- ===== src/Session.antt =====
-- The database session of one request: its tables, and actions on them that may raise.
pub mod Tables
pub mod Exec
pub mod Write
pub mod Rows
pub mod Rule
