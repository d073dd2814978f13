-- ===== src/Booking/Capacity/Fits.antt =====
-- Rows that fit on a GPU together, and the conflict matrix.
use core_lab.Prelude.{
  ℕ, ◌+◌, ◌≤◌, ◌<◌, ◌≡◌, ◌⊎◌, inl, inr, true, none, List, [], ◌∷◌, ◌++◌, arith, length, or_else,
  is_some, Bool, Option, some, ◌||◌, ◌==◌, leb, every, is_empty, select, sum_of-append,
  every-append,
}
use core_lab.Data.Row.{Reservation, Gpu, ItemDraft}
use core_lab.Booking.Conflict.{
  window_active_reservations, classify_conflict, used_mb, used_pct, total_mb, is_shared,
  is_exclusive,
}
use core_lab.Booking.Capacity.Window.{
  holders, holders-empty, holders-shared, used_mb-holders-le, used_pct-holders-le,
}

-- One row alone, or shared rows; whatever memory they ask for is together within a capacity of
-- `cap` (0 is no limit), and the declared compute shares are within 100 percent.
pub record Fits (cap : ℕ) (rows : List Reservation) : Type 0 where
  pub pct : used_pct rows ≤ 100
  pub memory : (cap ≡ 0) ⊎ (used_mb rows ≤ cap)
  pub shape : (length rows ≤ 1) ⊎ (every is_shared rows ≡ true)

abbrev within : ItemDraft → Option Gpu → Bool
within item none = true
within item (some gpu) = total_mb gpu == 0 || leb (or_else 0 item.gpu_memory_mb) (total_mb gpu)

abbrev within_of : (ℕ → Option Gpu) → ItemDraft → Option ℕ → Bool
within_of gpus item none = true
within_of gpus item (some g) = within item (gpus g)

-- The item asks for no more memory than its GPU has, where the GPU is found and its memory known.
abbrev pub is_sized : (ℕ → Option Gpu) → ItemDraft → Bool
is_sized gpus item = within_of gpus item item.gpu_id

-- The row has the shares that the item asks for.
pub record Asks (item : ItemDraft) (r : Reservation) : Type 0 where
  pub memory : r.gpu_memory_mb ≡ item.gpu_memory_mb
  pub share : r.gpu_compute_share_pct ≡ item.gpu_compute_share_pct
  pub range : or_else 0 r.gpu_compute_share_pct ≤ 100

module _ (cap : ℕ) (rows : List Reservation) (r : Reservation) where
  -- A row that is alone fits where its own memory is within the capacity.
  Fits-alone :
      or_else 0 r.gpu_compute_share_pct ≤ 100
      → (cap ≡ 0) ⊎ (or_else 0 r.gpu_memory_mb ≤ cap)
      → rows ≡ []
      → Fits cap (rows ++ r ∷ [])
  Fits-alone range mb e =
      rw e (record { pct = omega arith; memory = ground (arith, mb); shape = inl (omega arith) })

  Fits-shared :
      every is_shared rows ≡ true
      → is_shared r ≡ true
      → (cap ≡ 0) ⊎ (used_mb rows + or_else 0 r.gpu_memory_mb ≤ cap)
      → used_pct rows + or_else 0 r.gpu_compute_share_pct ≤ 100
      → Fits cap (rows ++ r ∷ [])
  Fits-shared all one mb pct = record {
    pct = ground (
      arith,
      sum_of-append (λ (x : Reservation). or_else 0 x.gpu_compute_share_pct) rows (r ∷ []),
    );
    memory =
        ground
          (arith, sum_of-append (λ (x : Reservation). or_else 0 x.gpu_memory_mb) rows (r ∷ []));
    shape = inr (ground (arith, every-append is_shared rows (r ∷ [])));
  }

-- What the conflict matrix says by letting an item through: nothing is in its window, or all is
-- shared there and the sums leave room.
abbrev pub HasRoom : ItemDraft → Gpu → List Reservation → Type 0
HasRoom item gpu window =
    (is_empty window ≡ true)
    ⊎ ((is_empty (select is_exclusive window) ≡ true)
        × (is_some item.gpu_memory_mb ≡ true)
        × ((total_mb gpu ≡ 0) ⊎ (used_mb window + or_else 0 item.gpu_memory_mb ≤ total_mb gpu))
        × ((item.gpu_compute_share_pct ≡ none)
            ⊎ (used_pct window + or_else 0 item.gpu_compute_share_pct ≤ 100)))

pub classify-HasRoom :
    (item : ItemDraft) (window : List Reservation) (gpu : Gpu)
    → classify_conflict item window gpu ≡ none
    → HasRoom item gpu window
unfolding classify_conflict
classify-HasRoom item window gpu h = ground arith

module _ (g t : ℕ) (item : ItemDraft) (gpu : Gpu) (rows : List Reservation) (r : Reservation) where
  -- A row that the matrix let through fits beside the rows that hold the GPU at each instant of
  -- its window.
  pub admitted-Fits :
      item.start_at ≤ t
      → t < item.end_at
      → Asks item r
      → (total_mb gpu ≡ 0) ⊎ (or_else 0 item.gpu_memory_mb ≤ total_mb gpu)
      → HasRoom item gpu (window_active_reservations g item.start_at item.end_at rows)
      → Fits (total_mb gpu) (holders g t rows)
      → Fits (total_mb gpu) (holders g t rows ++ r ∷ [])
  admitted-Fits h k asks sized (inl empty) f =
      Fits-alone (total_mb gpu) (holders g t rows) r asks.range (ground (arith, sized, asks.memory))
        (holders-empty g item.start_at item.end_at t h k rows empty)
  admitted-Fits h k asks sized (inr room) f =
      Fits-shared (total_mb gpu) (holders g t rows) r
        (holders-shared g item.start_at item.end_at t h k rows room.0) (ground (arith, asks.memory))
        (ground (arith, asks.memory, used_mb-holders-le g item.start_at item.end_at t h k rows))
        (ground (arith, asks.share, used_pct-holders-le g item.start_at item.end_at t h k rows))
