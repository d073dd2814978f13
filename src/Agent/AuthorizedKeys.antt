-- ===== src/Agent/AuthorizedKeys.antt =====
-- The keys that may log in to an account (agent/corelab_agent/authorized_keys.py).
pub mod Line
pub mod Rewrite
pub mod Handlers
pub mod RoundTrip
pub mod Restore
pub mod Hidden
