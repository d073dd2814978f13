-- ===== src/RateLimit.antt =====
-- The rate limits of backend/corelab_backend/middleware/rate_limit.py, on the store of one process.
pub mod Window
pub mod Budget
pub mod Lock
