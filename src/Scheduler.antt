-- ===== src/Scheduler.antt =====
-- The scheduler (backend/corelab_backend/services/reservation_scheduler.py): one tick promotes,
-- closes and dispatches what is due, and reaps dispatches that are stuck.
pub mod Tick
pub mod Watchdog
pub mod Loop
pub mod Progress
pub mod Retry
pub mod Follow
