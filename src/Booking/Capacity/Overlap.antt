-- ===== src/Booking/Capacity/Overlap.antt =====
-- The window test of the locking read, as a statement about instants.
use core_lab.Prelude.{ℕ, ◌≤◌, ◌<◌, ◌≡◌, ◌↔◌, true, arith, leb, inl, inr, Bool-cases}
use core_lab.Data.Row.{Instant, Reservation}
use core_lab.Booking.Conflict.{overlaps}
use core_lab.Booking.Capacity.Window.{occupies}

-- A row with a start before its end is read for a window that is not empty exactly when it holds
-- the GPU at some instant of that window.
overlaps-instant :
    (g a b : ℕ) (r : Reservation)
    → a < b
    → r.start_at < r.end_at
    → (overlaps g a b r ≡ true) ↔ ((t : Instant) × (a ≤ t) × (t < b) × (occupies g t r ≡ true))
overlaps-instant g a b r window order = (common, λ (t, h, k, o). ground arith)
  where
    common : overlaps g a b r ≡ true → (t : Instant) × (a ≤ t) × (t < b) × (occupies g t r ≡ true)
    common o = elim (Bool-cases (leb a r.start_at)) [
      | inl later ↦ (r.start_at, ground arith, ground arith, ground arith)
      | inr earlier ↦ (a, ground arith, ground arith, ground arith)
    ]
