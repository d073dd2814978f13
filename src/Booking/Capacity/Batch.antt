-- ===== src/Booking/Capacity/Batch.antt =====
-- The rows of a batch at one instant, and the collisions of its items.
use core_lab.Prelude.{
  ℕ, suc, ◌≡◌, refl, ap, ◌∙◌, ◌⊎◌, inl, inr, Bool, true, false, ◌&&◌, ◌||◌, Option, none, some,
  List, [], ◌∷◌, arith, ltb, leb, is_id, every, every-head, every-tail, All, Bool-cases,
  if◌then◌else◌,
}
use core_lab.Data.Row.{Text, Instant, Reservation, ItemDraft, row_ok}
use core_lab.Booking.Create.{BatchRequest, row_of, rows_of}
use core_lab.Booking.Capacity.Window.{occupies, holders}
use core_lab.Booking.Capacity.Fits.{Asks}

-- The item asks for GPU `g` at the instant `t`.
abbrev pub covers : ℕ → Instant → ItemDraft → Bool
covers g t item = is_id g item.gpu_id && (leb item.start_at t && ltb t item.end_at)

abbrev same_gpu : Option ℕ → Option ℕ → Bool
same_gpu none b = false
same_gpu (some g) b = is_id g b

-- Two items ask for one GPU at a common instant.
abbrev pub collide : ItemDraft → ItemDraft → Bool
collide i j = same_gpu i.gpu_id j.gpu_id && (ltb i.start_at j.end_at && ltb j.start_at i.end_at)

abbrev pub NoCollision : List ItemDraft → Type 0
NoCollision [] = Unit
NoCollision (i ∷ items) = All (λ j. collide i j ≡ false) items × NoCollision items

covers-collide :
    (g t : ℕ) (i j : ItemDraft) → covers g t i ≡ true → covers g t j ≡ true → collide i j ≡ true
covers-collide g t i j h k = ground arith

holders-cons_in :
    (g t : ℕ) (r : Reservation) (rows : List Reservation)
    → occupies g t r ≡ true
    → holders g t (r ∷ rows) ≡ r ∷ holders g t rows
holders-cons_in g t r rows h = ground arith

holders-cons_out :
    (g t : ℕ) (r : Reservation) (rows : List Reservation)
    → occupies g t r ≡ false
    → holders g t (r ∷ rows) ≡ holders g t rows
holders-cons_out g t r rows h = ground arith

module _ (g t : ℕ) (req : BatchRequest) (group_id : ℕ) where
  occupies-row_of :
      (n : ℕ) (script : Option Text) (item : ItemDraft)
      → occupies g t (row_of req group_id n script item) ≡ covers g t item
  unfolding row_of
  occupies-row_of n script item = refl

  row_of-Asks :
      (n : ℕ) (script : Option Text) (item : ItemDraft)
      → row_ok (row_of req group_id n script item) ≡ true
      → Asks item (row_of req group_id n script item)
  unfolding row_of row_ok
  row_of-Asks n script item h = record { memory = refl; share = refl; range = ground arith }

  no_holder :
      (i : ItemDraft) (first : Bool) (n : ℕ) (items : List ItemDraft)
      → covers g t i ≡ true
      → All (λ j. collide i j ≡ false) items
      → holders g t (rows_of req group_id first n items) ≡ []
  unfolding rows_of row_of
  no_holder i first n [] c h = refl
  no_holder i first n (j ∷ items) c h =
      ground (arith, covers-collide g t i j c, no_holder i false (suc n) items c h.1)

  -- The one row of the batch that holds the GPU at the instant, with its item.
  abbrev pub Holder : (ItemDraft → Type 0) → List Reservation → Type 0
  Holder P rows =
      (item : ItemDraft) × (r : Reservation) × (holders g t rows ≡ r ∷ [])
      × (covers g t item ≡ true)
      × P item
      × Asks item r

  pub one-Holder :
      (P : ItemDraft → Type 0) (first : Bool) (n : ℕ) (items : List ItemDraft)
      → All P items
      → NoCollision items
      → every row_ok (rows_of req group_id first n items) ≡ true
      → (holders g t (rows_of req group_id first n items) ≡ [])
        ⊎ Holder P (rows_of req group_id first n items)
  unfolding rows_of
  one-Holder P first n [] p d w = inl refl
  one-Holder P first n (i ∷ items) p d w = elim (Bool-cases (covers g t i)) [
    | inl inside ↦ inr (
      i,
      head_row,
      holders-cons_in g t head_row rest (occupies-row_of n script i ∙ inside)
          ∙ ap (λ rows. head_row ∷ rows) (no_holder i false (suc n) items inside d.0),
      inside,
      p.0,
      row_of-Asks n script i (every-head row_ok head_row rest w),
    )
    | inr outside ↦
        let skip = holders-cons_out g t head_row rest (occupies-row_of n script i ∙ outside) in
        elim (one-Holder P false (suc n) items p.1 d.1 (every-tail row_ok head_row rest w)) [
          | inl e ↦ inl (skip ∙ e)
          | inr (item, r, e, c, q, a) ↦ inr (item, r, skip ∙ e, c, q, a)
        ]
  ]
    where
      script : Option Text
      script = if req.share_script || first then req.script else none

      head_row : Reservation
      head_row = row_of req group_id n script i

      rest : List Reservation
      rest = rows_of req group_id false (suc n) items
