-- ===== src/Lifecycle.antt =====
-- The life of a reservation after it is booked: the transitions of its two status columns, and
-- cancelling (backend/corelab_backend/services/reservation_service.py).
pub mod Transition
pub mod Moves
pub mod Effects
pub mod Script
pub mod Cancel
pub mod Events
pub mod Follow
pub mod FollowEvents
pub mod Once
