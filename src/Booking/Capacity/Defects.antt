-- ===== src/Booking/Capacity/Defects.antt =====
-- The conflict check of a batch, against the load of the GPUs.
use core_lab.Prelude.{
  ℕ, suc, ◌<◌, ◌≡◌, refl, sym, subst, ◌∙◌, ap, ◌↔◌, true, false, Option, none, some, List, [], ◌∷◌,
  ◌++◌, arith, every, length-append, select-append, every-append, ◌||◌, if◌then◌else◌,
}
use core_lab.Data.Row.{Reservation, Gpu, ItemDraft, row_ok, script_fits, tail_fits}
use core_lab.Data.Error.{Check, ok, for_each}
use core_lab.Session.Tables.{Session}
use core_lab.Booking.Conflict.{classify_conflict, window_active_reservations, total_mb, is_shared}
use core_lab.Booking.Create.{
  BatchRequest, check_conflict, check_batch, raise_conflict, row_of, rows_of,
  create_reservation_batch,
}
use core_lab.Booking.Create.Run.{Created, create-Created, create-ok, inserted, outcome}
use core_lab.Booking.Capacity.Window.{occupies, holders}
use core_lab.Booking.Capacity.Fits.{Fits}
use core_lab.Booking.Capacity.Create.{IsSafe}

-- The request with other items.
abbrev pub with_items : BatchRequest → List ItemDraft → BatchRequest
with_items req items = record req { items = items }

-- A loop that passes at one item passes at two copies of it.
for_each-twice {ℓ} :
    {A : Type ℓ} (f : A → Check) (x : A)
    → for_each f (x ∷ []) ≡ ok tt
    → for_each f (x ∷ x ∷ []) ≡ ok tt
for_each-twice f x h = ground arith

check_batch-twice :
    (req : BatchRequest) (s : Session) (i : ItemDraft)
    → check_batch (with_items req (i ∷ [])) s ≡ ok tt
    → check_batch (with_items req (i ∷ i ∷ [])) s ≡ ok tt
unfolding check_batch
check_batch-twice req s i h = ground arith

-- Two rows, one of them exclusive, do not fit.
not-Fits :
    (cap : ℕ) (rows : List Reservation) (a b : Reservation)
    → a.gpu_memory_mb ≡ none
    → ¬ Fits cap (rows ++ a ∷ b ∷ [])
not-Fits cap rows a b h f =
    ground
      (arith, f.shape, every-append is_shared rows (a ∷ b ∷ []), length-append rows (a ∷ b ∷ []))

-- A shared item that asks for more memory than its GPU has, where the GPU is found and its memory
-- is known, passes the conflict check exactly when nothing overlaps its window: the capacity is
-- only checked beside other rows.
pub check_conflict-alone :
    (s : Session) (item : ItemDraft) (g : ℕ) (gpu : Gpu) (mb : ℕ)
    → item.gpu_id ≡ some g
    → s.gpus g ≡ some gpu
    → item.gpu_memory_mb ≡ some mb
    → 0 < total_mb gpu
    → total_mb gpu < mb
    → (check_conflict s item ≡ ok tt)
      ↔ (window_active_reservations g item.start_at item.end_at s.reservations ≡ [])
unfolding check_conflict raise_conflict classify_conflict
check_conflict-alone s item g gpu mb on found shared cap over = ground arith

-- The second row of a batch meets the constraints where the first does.
second-row_ok :
    (req : BatchRequest) (group_id n : ℕ) (i : ItemDraft)
    → every row_ok (rows_of req group_id true n (i ∷ [])) ≡ true
    → every row_ok (rows_of req group_id true n (i ∷ i ∷ [])) ≡ true
unfolding rows_of row_of row_ok script_fits tail_fits
second-row_ok req group_id n i h = ground arith

-- A row's columns do not depend on the other items of its request.
same_rows :
    (req : BatchRequest) (items : List ItemDraft) (group_id n : ℕ) (i : ItemDraft)
    → rows_of (with_items req items) group_id true n (i ∷ []) ≡ rows_of req group_id true n (i ∷ [])
unfolding rows_of row_of
same_rows req items group_id n i = refl

pair_holds :
    (req : BatchRequest) (group_id g n : ℕ) (i : ItemDraft)
    → i.gpu_id ≡ some g
    → i.start_at < i.end_at
    → holders g i.start_at (rows_of req group_id true n (i ∷ i ∷ []))
      ≡ rows_of req group_id true n (i ∷ i ∷ [])
unfolding rows_of row_of
pair_holds req group_id g n i on order = ground arith

module _ (req : BatchRequest) (group_id : ℕ) (s s₁ : Session) (rows : List Reservation)
    (i : ItemDraft) (g : ℕ) (gpu : Gpu) where
  -- If a batch of one exclusive item on a GPU that is found is created, and its window is not
  -- empty, then the batch of that item given twice is also created, in the same session, and the
  -- GPU is then booked beyond its capacity: the items of a batch are not checked against one
  -- another.
  pub twice-not-IsSafe :
      create_reservation_batch (with_items req (i ∷ [])) group_id s ≡ (ok rows, s₁)
      → i.gpu_id ≡ some g
      → s.gpus g ≡ some gpu
      → i.gpu_memory_mb ≡ none
      → i.start_at < i.end_at
      → (s₂ : Session) × (pair : List Reservation) × (create_reservation_batch
            (with_items req (i ∷ i ∷ []))
            group_id
            s
          ≡ (ok pair, s₂))
        × ¬ IsSafe s₂
  unfolding rows_of
  twice-not-IsSafe h on found exclusive order = (
    outcome twice group_id s,
    inserted twice group_id s,
    call,
    λ safe. not-Fits (total_mb gpu) (holders g i.start_at s.reservations) first second exclusive (
        subst (Fits (total_mb gpu)) both (
          safe.at g i.start_at gpu
            (subst (λ (gs : ℕ → Option Gpu). gs g ≡ some gpu) (sym double.gpus) found))),
  )
    where
      twice : BatchRequest
      twice = with_items req (i ∷ i ∷ [])

      run : Created (with_items req (i ∷ [])) group_id s s₁
      run = create-Created (with_items req (i ∷ [])) group_id s s₁ rows h

      valid : every row_ok (s.reservations ++ inserted twice group_id s) ≡ true
      valid = ground (
        arith,
        run.valid,
        every-append row_ok s.reservations (inserted (with_items req (i ∷ [])) group_id s),
        every-append row_ok s.reservations (inserted twice group_id s),
        second-row_ok twice group_id s.next_id i,
        same_rows twice (i ∷ []) group_id s.next_id i,
      )

      call :
          create_reservation_batch twice group_id s
          ≡ (ok (inserted twice group_id s), outcome twice group_id s)
      call = create-ok twice group_id s (check_batch-twice req s i run.checked) valid

      double : Created twice group_id s (outcome twice group_id s)
      double = create-Created twice group_id s _ _ call

      first : Reservation
      first =
          row_of twice group_id s.next_id (if req.share_script || true then req.script else none) i

      second : Reservation
      second =
          row_of twice group_id (suc s.next_id)
            (if req.share_script || false then req.script else none) i

      both :
          holders g i.start_at (outcome twice group_id s).reservations
          ≡ holders g i.start_at s.reservations ++ first ∷ second ∷ []
      both =
          ap (holders g i.start_at) double.reservations
          ∙ select-append (occupies g i.start_at) s.reservations (inserted twice group_id s)
          ∙ ap (λ (hs : List Reservation). holders g i.start_at s.reservations ++ hs)
              (pair_holds twice group_id g s.next_id i on order)
