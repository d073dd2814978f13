-- ===== src/Api.antt =====
-- How a call on a session ends: committed, or rolled back.
pub mod Request
pub mod History
pub mod Refusals
pub mod Output
