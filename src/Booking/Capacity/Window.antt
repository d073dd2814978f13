-- ===== src/Booking/Capacity/Window.antt =====
-- The rows that hold a GPU at an instant, against the rows that a locking read of a window returns.
use core_lab.Prelude.{
  ℕ, ◌≤◌, ◌<◌, ◌≡◌, refl, Bool, true, ◌&&◌, List, [], ◌∷◌, arith, ltb, leb, is_id, is_empty, select,
  every,
}
use core_lab.Data.Status.{is_live}
use core_lab.Data.Row.{Instant, Reservation}
use core_lab.Booking.Conflict.{
  overlaps, window_active_reservations, used_mb, used_pct, is_shared, is_exclusive,
}

-- The row holds GPU `g` at the instant `t`.
abbrev pub occupies : ℕ → Instant → Reservation → Bool
occupies g t r = is_id g r.gpu_id && (is_live r.status && (leb r.start_at t && ltb t r.end_at))

abbrev pub holders : ℕ → Instant → List Reservation → List Reservation
holders g t = select (occupies g t)

occupies-overlaps :
    (g a b t : ℕ) (r : Reservation)
    → a ≤ t
    → t < b
    → occupies g t r ≡ true
    → overlaps g a b r ≡ true
occupies-overlaps g a b t r h k o = ground arith

module _ (g a b t : ℕ) (h : a ≤ t) (k : t < b) where
  pub holders-empty :
      (rows : List Reservation)
      → is_empty (window_active_reservations g a b rows) ≡ true
      → holders g t rows ≡ []
  unfolding window_active_reservations
  holders-empty [] e = refl
  holders-empty (r ∷ rows) e = ground (arith, occupies-overlaps g a b t r, holders-empty rows)

  pub used_mb-holders-le :
      (rows : List Reservation)
      → used_mb (holders g t rows) ≤ used_mb (window_active_reservations g a b rows)
  unfolding window_active_reservations
  used_mb-holders-le [] = omega arith
  used_mb-holders-le (r ∷ rows) =
      ground (arith, occupies-overlaps g a b t r, used_mb-holders-le rows)

  pub used_pct-holders-le :
      (rows : List Reservation)
      → used_pct (holders g t rows) ≤ used_pct (window_active_reservations g a b rows)
  unfolding window_active_reservations
  used_pct-holders-le [] = omega arith
  used_pct-holders-le (r ∷ rows) =
      ground (arith, occupies-overlaps g a b t r, used_pct-holders-le rows)

  pub holders-shared :
      (rows : List Reservation)
      → is_empty (select is_exclusive (window_active_reservations g a b rows)) ≡ true
      → every is_shared (holders g t rows) ≡ true
  unfolding window_active_reservations
  holders-shared [] e = refl
  holders-shared (r ∷ rows) e = ground (arith, occupies-overlaps g a b t r, holders-shared rows)
