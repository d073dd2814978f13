-- ===== src/Accounts.antt =====
-- Links between platform users and Linux accounts (`account_link_service`).
pub mod Tables
pub mod Links
pub mod Revoke
pub mod Unique
pub mod Keeps
pub mod Revoked
pub mod Removed
pub mod Requests
pub mod Decisions
pub mod Stranded
pub mod Pushed
