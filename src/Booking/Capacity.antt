-- ===== src/Booking/Capacity.antt =====
-- What the conflict matrix is for: the rows that hold a GPU at one instant fit on it.
pub mod Window
pub mod Fits
pub mod Overlap
pub mod Batch
pub mod Create
pub mod Insert
pub mod Modify
pub mod Defects
