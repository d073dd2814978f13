-- ===== src/Agent.antt =====
-- The agent on a server (agent/corelab_agent).
pub mod AuthorizedKeys
pub mod Grace
