-- ===== src/Booking/Capacity/Modify.antt =====
-- Editing a reservation (`modify_reservation`), and the load of the GPUs.
use core_lab.Prelude.{
  ℕ, ◌≤◌, ◌≡◌, ◌⊎◌, or_else, refl, sym, subst, ap, ◌∙◌, inl, inr, Bool, true, false, Option, some,
  List, [], ◌∷◌, ◌++◌, arith, every, every-append, select-append, Bool-cases, if◌then◌else◌,
}
use core_lab.Data.Row.{Reservation, Gpu, row_ok}
use core_lab.Data.Error.{ok}
use core_lab.Session.Tables.{Session, find, update}
use core_lab.Booking.Conflict.{window_active_reservations, total_mb}
use core_lab.Booking.Modify.{
  Edit, modify_reservation, check_window, move_window, others, window_edit, draft_of, edit_script,
}
use core_lab.Booking.Modify.Effects.{put}
use core_lab.Booking.Modify.Run.{
  Without, update-one, find-one, others-one, edited, written, Edited, modify-Edited,
}
use core_lab.Booking.Capacity.Window.{occupies, holders}
use core_lab.Booking.Capacity.Fits.{Fits, is_sized, Asks, HasRoom, classify-HasRoom, admitted-Fits}
use core_lab.Booking.Capacity.Insert.{Fits-without, Fits-insert, Fits-swap}
use core_lab.Booking.Capacity.Create.{IsSafe}

-- What the checks of an edited window say of the rows beside the row.
check_window-HasRoom :
    (e : Edit) (x : Reservation) (s : Session) (g : ℕ) (gpu : Gpu)
    → window_edit e ≡ true
    → x.gpu_id ≡ some g
    → s.gpus g ≡ some gpu
    → check_window e x s ≡ ok tt
    → HasRoom
        (draft_of x)
        gpu
        (others x.id (window_active_reservations g x.start_at x.end_at s.reservations))
unfolding check_window
check_window-HasRoom e x s g gpu asked on found h =
    classify-HasRoom (draft_of x)
      (others x.id (window_active_reservations g x.start_at x.end_at s.reservations)) gpu
      (ground (arith, asked, on, found, h))

-- Leaving a row out of a window, and taking the window of the others, come to the same.
window-others :
    (n g a b : ℕ) (rows : List Reservation)
    → others n (window_active_reservations g a b rows)
      ≡ window_active_reservations g a b (others n rows)
unfolding window_active_reservations
window-others n g a b [] = refl
window-others n g a b (r ∷ rows) = ground (arith, window-others n g a b rows)

holders-one :
    (g t : ℕ) (before after : List Reservation) (r : Reservation)
    → holders g t (before ++ r ∷ after)
      ≡ holders g t before ++ (if occupies g t r then r ∷ holders g t after else holders g t after)
holders-one g t before after r = select-append (occupies g t) before (r ∷ after)

-- A row that does not hold the GPU is no holder.
without-row :
    (cap : ℕ) (held : Bool) (xs ys : List Reservation) (r : Reservation)
    → Fits cap (xs ++ (if held then r ∷ ys else ys))
    → Fits cap (xs ++ ys)
without-row cap true xs ys r f = Fits-without cap xs ys r f
without-row cap false xs ys r f = f

module _ (e : Edit) (row : Reservation) (g t : ℕ) (gpu : Gpu)
    (before after : List Reservation) where
  new : Reservation
  new = edited e row

  -- The edit leaves the shares and the GPU as they are.
  new-Asks : row_ok new ≡ true → Asks (draft_of (move_window e row)) new
  unfolding new row_ok
  new-Asks valid = record {
    memory = ground arith;
    share = ground arith;
    range = ground (arith, valid);
  }

  beside :
      HasRoom (draft_of (move_window e row)) gpu (
        window_active_reservations g
          (move_window e row).start_at
          (move_window e row).end_at
          (before ++ after))
      → (total_mb gpu ≡ 0) ⊎ (or_else 0 row.gpu_memory_mb ≤ total_mb gpu)
      → row_ok new ≡ true
      → occupies g t new ≡ true
      → Fits (total_mb gpu) (holders g t before ++ holders g t after)
      → Fits (total_mb gpu) (holders g t before ++ new ∷ holders g t after)
  unfolding new
  beside room sized valid held f =
      Fits-insert (total_mb gpu) (holders g t before) (holders g t after) new (
        subst (λ (hs : List Reservation). Fits (total_mb gpu) (hs ++ new ∷ [])) split
          (admitted-Fits g t (draft_of (move_window e row)) gpu (before ++ after) new
            (ground (arith, held)) (ground (arith, held)) (new-Asks valid) (ground (arith, sized))
            room (subst (Fits (total_mb gpu)) (sym split) f)))
    where
      split : holders g t (before ++ after) ≡ holders g t before ++ holders g t after
      split = select-append (occupies g t) before after

  -- Without an edit of the window the new row holds the GPU where the old one does.
  same-window : window_edit e ≡ false → occupies g t new ≡ occupies g t row
  unfolding new
  same-window unasked = ground arith

  new-shares :
      (new.gpu_memory_mb ≡ row.gpu_memory_mb)
      × (new.gpu_compute_share_pct ≡ row.gpu_compute_share_pct)
  unfolding new
  new-shares = (ground arith, ground arith)

  swapped :
      (held : Bool)
      → Fits
          (total_mb gpu)
          (holders g t before ++ (if held then row ∷ holders g t after else holders g t after))
      → Fits
          (total_mb gpu)
          (holders g t before ++ (if held then new ∷ holders g t after else holders g t after))
  swapped true f =
      Fits-swap (total_mb gpu) (holders g t before) (holders g t after) row new new-shares.0
        new-shares.1 f
  swapped false f = f

  row-on : occupies g t new ≡ true → row.gpu_id ≡ some g
  unfolding new
  row-on held = ground (arith, held)

  -- The two cases of an edit, at one instant.
  kept :
      row_ok new ≡ true
      → (window_edit e ≡ true
          → occupies g t new ≡ true
          → HasRoom (draft_of (move_window e row)) gpu (
              window_active_reservations g
                (move_window e row).start_at
                (move_window e row).end_at
                (before ++ after)))
      → (row.gpu_id ≡ some g → (total_mb gpu ≡ 0) ⊎ (or_else 0 row.gpu_memory_mb ≤ total_mb gpu))
      → Fits (total_mb gpu) (holders g t (before ++ row ∷ after))
      → Fits (total_mb gpu) (holders g t (before ++ new ∷ after))
  kept valid room sized safe =
      subst (Fits (total_mb gpu)) (sym (holders-one g t before after new))
        (elim (Bool-cases (window_edit e)) [
          | inr unasked ↦
              subst
                (λ b. Fits (total_mb gpu) (
                  holders g t before ++ (if b then new ∷ holders g t after else holders g t after)))
                (sym (same-window unasked)) (swapped (occupies g t row) old)
          | inl asked ↦ elim (Bool-cases (occupies g t new)) [
            | inl held ↦
                subst
                  (λ b. Fits (total_mb gpu) (
                    holders g t before
                    ++ (if b then new ∷ holders g t after else holders g t after)))
                  (sym held) (beside (room asked held) (sized (row-on held)) valid held apart)
            | inr free ↦
                subst
                  (λ b. Fits (total_mb gpu) (
                    holders g t before
                    ++ (if b then new ∷ holders g t after else holders g t after)))
                  (sym free) apart
          ]
        ])
    where
      old : Fits (total_mb gpu) (
          holders g t before
          ++ (if occupies g t row then row ∷ holders g t after else holders g t after))
      old = subst (Fits (total_mb gpu)) (holders-one g t before after row) safe

      apart : Fits (total_mb gpu) (holders g t before ++ holders g t after)
      apart =
          without-row (total_mb gpu) (occupies g t row) (holders g t before) (holders g t after) row
            old

  new-on : occupies g t new ≡ true → (move_window e row).gpu_id ≡ some g
  unfolding new
  new-on held = ground (arith, held)

module _ (e : Edit) (s s' : Session) (row row' : Reservation) (before after : List Reservation)
    (table : s.reservations ≡ before ++ row ∷ after) (key : row.id ≡ e.reservation_id)
    (h : Without row.id before) (k : Without row.id after) where
  moved_table : (put row (move_window e row) s).reservations ≡ before ++ move_window e row ∷ after
  moved_table =
      ap (update row.id (λ _. move_window e row)) table
      ∙ update-one row.id before after h k (λ _. move_window e row) row refl

  scripted-id : (edit_script e (move_window e row)).id ≡ row.id
  scripted-id = ground arith

  written_table : (written e row s).reservations ≡ before ++ edited e row ∷ after
  written_table =
      ap (update row.id (λ _. edited e row)) (
        ap (update row.id (λ _. edit_script e (move_window e row))) moved_table
        ∙ update-one row.id before after h k (λ _. edit_script e (move_window e row))
            (move_window e row) refl)
      ∙ update-one row.id before after h k (λ _. edited e row) (edit_script e (move_window e row))
          scripted-id

  -- If an edit of a row that is the only one with its key, and that asks for no more memory than its
  -- GPU has, returns, then rows that fitted on every
  -- GPU at every instant still fit after it.
  pub modify-IsSafe :
      modify_reservation e s ≡ (ok row', s')
      → is_sized s.gpus (draft_of row) ≡ true
      → IsSafe s
      → IsSafe s'
  unfolding new
  modify-IsSafe call sized safe = record {
    at = λ g t gpu found.
        let there = subst (λ (gs : ℕ → Option Gpu). gs g ≡ some gpu) run.gpus found in
        subst (λ (rows : List Reservation). Fits (total_mb gpu) (holders g t rows))
          (sym (run.reservations ∙ written_table))
          (kept e row g t gpu before after valid (room g t gpu there) (memory g gpu there) (
            subst (λ (rows : List Reservation). Fits (total_mb gpu) (holders g t rows)) table
              (safe.at g t gpu there)));
  }
    where
      found : find e.reservation_id s.reservations ≡ some row
      found =
          ap (λ n. find n s.reservations) (sym key)
          ∙ ap (find row.id) table
          ∙ find-one row.id before after h k row refl

      memory :
          (g : ℕ) (gpu : Gpu)
          → s.gpus g ≡ some gpu
          → row.gpu_id ≡ some g
          → (total_mb gpu ≡ 0) ⊎ (or_else 0 row.gpu_memory_mb ≤ total_mb gpu)
      memory g gpu there on = ground (arith, there, on, sized)

      run : Edited e row s s'
      run = modify-Edited e s s' row row' found call

      valid : row_ok (edited e row) ≡ true
      valid = ground (
        arith,
        run.valid,
        ap (every row_ok) written_table,
        every-append row_ok before (edited e row ∷ after),
      )

      room :
          (g t : ℕ) (gpu : Gpu)
          → s.gpus g ≡ some gpu
          → window_edit e ≡ true
          → occupies g t (edited e row) ≡ true
          → HasRoom (draft_of (move_window e row)) gpu (
              window_active_reservations g
                (move_window e row).start_at
                (move_window e row).end_at
                (before ++ after))
      room g t gpu there asked held =
          subst (HasRoom (draft_of (move_window e row)) gpu)
            (window-others row.id g (move_window e row).start_at (move_window e row).end_at
                (put row (move_window e row) s).reservations
              ∙ ap
                  (window_active_reservations g (move_window e row).start_at
                    (move_window e row).end_at)
                  (ap (others row.id) moved_table
                    ∙ others-one row.id before after h k (move_window e row) refl))
            (check_window-HasRoom e (move_window e row) (put row (move_window e row) s) g gpu asked
              (new-on e row g t gpu before after held) there run.checked)
