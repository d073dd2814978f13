-- ===== src/Booking.antt =====
-- Booking: the checks of a reservation request and the rows that it inserts
-- (backend/corelab_backend/services/reservation_service.py).
pub mod Conflict
pub mod Given
pub mod Validate
pub mod Create
pub mod Preview
pub mod Modify
pub mod Capacity
