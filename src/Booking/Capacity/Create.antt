-- ===== src/Booking/Capacity/Create.antt =====
-- Creating a batch (`create_reservation_batch`), and the load of the GPUs.
use core_lab.Prelude.{
  ℕ, ◌≤◌, ◌<◌, ◌≡◌, ◌⊎◌, or_else, [], ◌∷◌, every-head, every-tail, sym, subst, ◌∙◌, ap, inl, inr,
  true, Option, none, some, List, ◌++◌, arith, every, All, select-append, every-append, append-nil,
}
use core_lab.Data.Row.{Reservation, Gpu, ItemDraft, row_ok}
use core_lab.Data.Error.{ok, and_then-ok, for_each-All}
use core_lab.Session.Tables.{Session}
use core_lab.Booking.Conflict.{classify_conflict, window_active_reservations, total_mb}
use core_lab.Booking.Create.{
  BatchRequest, check_conflict, check_batch, raise_conflict, create_reservation_batch,
}
use core_lab.Booking.Create.Run.{Created, create-Created, inserted}
use core_lab.Booking.Capacity.Window.{occupies, holders}
use core_lab.Booking.Capacity.Fits.{Fits, is_sized, HasRoom, classify-HasRoom, admitted-Fits}
use core_lab.Booking.Capacity.Batch.{NoCollision, covers, one-Holder}

-- At every instant the rows that hold a GPU fit on it.
pub record IsSafe (s : Session) : Type 0 where
  pub at :
      (g t : ℕ) (gpu : Gpu) → s.gpus g ≡ some gpu → Fits (total_mb gpu) (holders g t s.reservations)

check_batch-conflicts :
    (req : BatchRequest) (s : Session)
    → check_batch req s ≡ ok tt
    → All (λ item. check_conflict s item ≡ ok tt) req.items
unfolding check_batch
check_batch-conflicts req s h =
    for_each-All (check_conflict s) req.items tt (and_then-ok _ _ tt h).1

covers-bounds :
    (g t : ℕ) (item : ItemDraft) → covers g t item ≡ true → (item.start_at ≤ t) × (t < item.end_at)
covers-bounds g t item h = ground arith

All-sized :
    (s : Session) (items : List ItemDraft)
    → All (λ item. check_conflict s item ≡ ok tt) items
    → every (is_sized s.gpus) items ≡ true
    → All (λ item. (check_conflict s item ≡ ok tt) × (is_sized s.gpus item ≡ true)) items
All-sized s [] h k = tt
All-sized s (item ∷ items) h k = (
  (h.0, every-head (is_sized s.gpus) item items k),
  All-sized s items h.1 (every-tail (is_sized s.gpus) item items k),
)

sized-memory :
    (gpus : ℕ → Option Gpu) (g t : ℕ) (item : ItemDraft) (gpu : Gpu)
    → gpus g ≡ some gpu
    → covers g t item ≡ true
    → is_sized gpus item ≡ true
    → (total_mb gpu ≡ 0) ⊎ (or_else 0 item.gpu_memory_mb ≤ total_mb gpu)
sized-memory gpus g t item gpu found inside sized = ground (arith, found)

-- Every conflict of the matrix is raised.
raise_conflict-classify :
    (item : ItemDraft) (window : List Reservation) (gpu : Gpu)
    → raise_conflict (classify_conflict item window gpu) ≡ ok tt
    → classify_conflict item window gpu ≡ none
unfolding raise_conflict classify_conflict
raise_conflict-classify item window gpu h = ground arith

-- An item that passed leaves room on its GPU.
check_conflict-HasRoom :
    (s : Session) (g t : ℕ) (gpu : Gpu) (item : ItemDraft)
    → s.gpus g ≡ some gpu
    → covers g t item ≡ true
    → check_conflict s item ≡ ok tt
    → HasRoom item gpu (window_active_reservations g item.start_at item.end_at s.reservations)
unfolding check_conflict
check_conflict-HasRoom s g t gpu item found inside passed =
    classify-HasRoom item window gpu
      (raise_conflict-classify item window gpu (ground (arith, passed)))
  where
    window : List Reservation
    window = window_active_reservations g item.start_at item.end_at s.reservations

module _ (req : BatchRequest) (group_id : ℕ) (s s' : Session) (rows : List Reservation) where
  -- If a batch is created, none of its items asks for more memory than its GPU has, and no two of
  -- them ask for one GPU at a common instant, then rows
  -- that fitted on every GPU at every instant still fit once the new rows are among them.
  pub create-IsSafe :
      create_reservation_batch req group_id s ≡ (ok rows, s')
      → NoCollision req.items
      → every (is_sized s.gpus) req.items ≡ true
      → IsSafe s
      → IsSafe s'
  create-IsSafe h apart sized safe = record {
    at = λ g t gpu found.
        subst (Fits (total_mb gpu)) (sym (split g t))
          (beside g t gpu (subst (λ (gs : ℕ → Option Gpu). gs g ≡ some gpu) run.gpus found));
  }
    where
      run : Created req group_id s s'
      run = create-Created req group_id s s' rows h

      new : List Reservation
      new = inserted req group_id s

      split :
          (g t : ℕ) → holders g t s'.reservations ≡ holders g t s.reservations ++ holders g t new
      split g t =
          ap (holders g t) run.reservations ∙ select-append (occupies g t) s.reservations new

      valid : every row_ok new ≡ true
      valid = ground (arith, run.valid, every-append row_ok s.reservations new)

      beside :
          (g t : ℕ) (gpu : Gpu)
          → s.gpus g ≡ some gpu
          → Fits (total_mb gpu) (holders g t s.reservations ++ holders g t new)
      beside g t gpu found =
          elim (one-Holder g t req group_id
            (λ item. (check_conflict s item ≡ ok tt) × (is_sized s.gpus item ≡ true)) true s.next_id
            req.items (All-sized s req.items (check_batch-conflicts req s run.checked) sized) apart
            valid) [
              | inl e ↦
                  subst
                    (λ (hs : List Reservation).
                      Fits (total_mb gpu) (holders g t s.reservations ++ hs))
                    (sym e) (rw append-nil (safe.at g t gpu found))
              | inr (item, r, e, inside, passed, asks) ↦
                  let bounds = covers-bounds g t item inside in
                  subst
                    (λ (hs : List Reservation).
                      Fits (total_mb gpu) (holders g t s.reservations ++ hs))
                    (sym e)
                    (admitted-Fits g t item gpu s.reservations r bounds.0 bounds.1 asks
                      (sized-memory s.gpus g t item gpu found inside passed.1)
                      (check_conflict-HasRoom s g t gpu item found inside passed.0)
                      (safe.at g t gpu found))
            ]
