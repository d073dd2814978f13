-- ===== src/Booking/Capacity/Insert.antt =====
-- Rows that fit on a GPU, with one among them added, left out or replaced.
use core_lab.Prelude.{
  ℕ, ◌+◌, ◌≡◌, true, List, [], ◌∷◌, ◌++◌, arith, length, length-append, or_else, every,
  every-append, sum_of-append,
}
use core_lab.Data.Row.{Reservation}
use core_lab.Booking.Conflict.{is_shared, used_mb, used_pct}
use core_lab.Booking.Capacity.Fits.{Fits}

-- The measures of rows with one among them.
module _ (xs ys : List Reservation) (r : Reservation) where
  length-among : length (xs ++ r ∷ ys) ≡ length (xs ++ ys) + 1
  length-among = ground (arith, length-append xs (r ∷ ys), length-append xs ys)

  used_mb-among : used_mb (xs ++ r ∷ ys) ≡ used_mb (xs ++ ys) + or_else 0 r.gpu_memory_mb
  used_mb-among = ground (
    arith,
    sum_of-append (λ (x : Reservation). or_else 0 x.gpu_memory_mb) xs (r ∷ ys),
    sum_of-append (λ (x : Reservation). or_else 0 x.gpu_memory_mb) xs ys,
  )

  used_pct-among : used_pct (xs ++ r ∷ ys) ≡ used_pct (xs ++ ys) + or_else 0 r.gpu_compute_share_pct
  used_pct-among = ground (
    arith,
    sum_of-append (λ (x : Reservation). or_else 0 x.gpu_compute_share_pct) xs (r ∷ ys),
    sum_of-append (λ (x : Reservation). or_else 0 x.gpu_compute_share_pct) xs ys,
  )

  every-among : (every is_shared (xs ++ r ∷ ys) ≡ true) → every is_shared (xs ++ ys) ≡ true
  every-among h = ground (arith, every-append is_shared xs (r ∷ ys), every-append is_shared xs ys)

module _ (cap : ℕ) (xs ys : List Reservation) (r : Reservation) where
  pub Fits-without : Fits cap (xs ++ r ∷ ys) → Fits cap (xs ++ ys)
  Fits-without f = record {
    pct = ground (arith, f.pct, used_pct-among xs ys r);
    memory = ground (arith, f.memory, used_mb-among xs ys r);
    shape = ground (arith, f.shape, length-among xs ys r, every-among xs ys r);
  }

  pub Fits-insert : Fits cap ((xs ++ ys) ++ r ∷ []) → Fits cap (xs ++ r ∷ ys)
  Fits-insert f = record {
    pct = ground (
      arith,
      f.pct,
      used_pct-among xs ys r,
      sum_of-append (λ (x : Reservation). or_else 0 x.gpu_compute_share_pct) (xs ++ ys) (r ∷ []),
    );
    memory = ground (
      arith,
      f.memory,
      used_mb-among xs ys r,
      sum_of-append (λ (x : Reservation). or_else 0 x.gpu_memory_mb) (xs ++ ys) (r ∷ []),
    );
    shape = ground (
      arith,
      f.shape,
      length-among xs ys r,
      length-append (xs ++ ys) (r ∷ []),
      every-append is_shared xs (r ∷ ys),
      every-append is_shared xs ys,
      every-append is_shared (xs ++ ys) (r ∷ []),
    );
  }

  -- A row with the same shares.
  pub Fits-swap :
      (r' : Reservation)
      → r'.gpu_memory_mb ≡ r.gpu_memory_mb
      → r'.gpu_compute_share_pct ≡ r.gpu_compute_share_pct
      → Fits cap (xs ++ r ∷ ys)
      → Fits cap (xs ++ r' ∷ ys)
  Fits-swap r' p q f = record {
    pct = ground (arith, f.pct, p, q, used_pct-among xs ys r, used_pct-among xs ys r');
    memory = ground (arith, p, f.memory, used_mb-among xs ys r, used_mb-among xs ys r');
    shape = ground (
      arith,
      p,
      f.shape,
      length-among xs ys r,
      length-among xs ys r',
      every-append is_shared xs (r ∷ ys),
      every-append is_shared xs (r' ∷ ys),
    );
  }
