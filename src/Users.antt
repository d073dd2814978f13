-- ===== src/Users.antt =====
-- Users: logins, one-time tokens, activation, and what administrators do with accounts.
pub mod Tables
pub mod Keys
pub mod Login
pub mod Tokens
pub mod Access
pub mod Manage
pub mod Activate
pub mod Admins
pub mod Operations
