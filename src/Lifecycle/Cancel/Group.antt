-- ===== src/Lifecycle/Cancel/Group.antt =====
-- A group cancel, as one pass over the table.
use core_lab.Prelude.{
  ℕ, ◌≡◌, refl, sym, ap, ◌∙◌, Bool, true, false, ◌&&◌, List, [], ◌∷◌, map, arith, ◌==◌, ==_refl,
  some_of, select, All, if◌then◌else◌,
}
use core_lab.Data.Status.{is_live}
use core_lab.Data.Row.{Instant, Reservation}
use core_lab.Data.Error.{ok}
use core_lab.Session.Tables.{Session, update}
use core_lab.Session.Exec.{flush}
use core_lab.Lifecycle.Cancel.{
  Cancel, set_cancelled, group_rows, cancel_group, audit_group, assign_all, push_all,
}

-- The rows of a group are assigned one after the other.
update_all : Cancel → Instant → List Reservation → List Reservation → List Reservation
update_all c at [] rows = rows
update_all c at (row ∷ group) rows = update_all c at group (update row.id (set_cancelled c at) rows)

assign_all_lem :
    (c : Cancel) (at : Instant) (group : List Reservation) (s : Session)
    → assign_all c at group s
      ≡ (ok tt, record s { reservations = update_all c at group s.reservations })
unfolding assign_all update_all
assign_all_lem c at [] s = refl
assign_all_lem c at (row ∷ group) s = assign_all_lem c at group _

push_all-quiet :
    (c : Cancel) (at : Instant) (group : List Reservation) (s : Session)
    → (push_all c at group s).1.reservations ≡ s.reservations
unfolding push_all
push_all-quiet c at [] s = refl
push_all-quiet c at (row ∷ group) s = push_all-quiet c at group _

audit_group-quiet :
    (c : Cancel) (group_id : ℕ) (rows : List Reservation) (s : Session)
    → ((audit_group c group_id rows s).0 ≡ ok tt)
      × ((audit_group c group_id rows s).1.reservations ≡ s.reservations)
unfolding audit_group
audit_group-quiet c group_id [] s = (refl, refl)
audit_group-quiet c group_id (row ∷ rows) s = (refl, refl)

module _ (c : Cancel) (at : Instant) where
  keyed : List Reservation → Reservation → Bool
  keyed group r = some_of (λ x. r.id == x.id) group

  mark : List Reservation → Reservation → Reservation
  unfolding keyed
  mark group r = if keyed group r then set_cancelled c at r else r

  mark-update :
      (row : Reservation) (group rows : List Reservation)
      → map (mark group) (update row.id (set_cancelled c at) rows) ≡ map (mark (row ∷ group)) rows
  unfolding mark keyed update
  mark-update row group [] = refl
  mark-update row group (r ∷ rows) = ground (arith, mark-update row group rows)

  map-nothing : (rows : List Reservation) → map (mark []) rows ≡ rows
  unfolding mark keyed
  map-nothing [] = refl
  map-nothing (r ∷ rows) = ground (arith, map-nothing rows)

  update_all-map :
      (group rows : List Reservation) → update_all c at group rows ≡ map (mark group) rows
  unfolding update_all
  update_all-map [] rows = sym (map-nothing rows)
  update_all-map (row ∷ group) rows =
      update_all-map group (update row.id (set_cancelled c at) rows) ∙ mark-update row group rows

  -- The rows that a test selects are keyed in the selection.
  Covers : (Reservation → Bool) → List Reservation → List Reservation → Type 0
  Covers p group rows = All (λ r. p r ≡ true → keyed group r ≡ true) rows

  Covers-cons :
      (p : Reservation → Bool) (x : Reservation) (group rows : List Reservation)
      → Covers p group rows
      → Covers p (x ∷ group) rows
  unfolding Covers keyed
  Covers-cons p x group [] h = tt
  Covers-cons p x group (r ∷ rows) h = (λ e. ground (arith, h.0 e), Covers-cons p x group rows h.1)

  Covers-head :
      (p : Reservation → Bool) (b : Bool) (x : Reservation) (group rows : List Reservation)
      → p x ≡ b
      → Covers p group rows
      → Covers p (if b then x ∷ group else group) (x ∷ rows)
  unfolding Covers keyed
  Covers-head p true x group rows e h =
      (λ _. ground (arith, ==_refl x.id), Covers-cons p x group rows h)
  Covers-head p false x group rows e h = (λ k. cc (e, k), h)

  Covers-select : (p : Reservation → Bool) (rows : List Reservation) → Covers p (select p rows) rows
  unfolding Covers
  Covers-select p [] = tt
  Covers-select p (x ∷ rows) =
      Covers-head p (p x) x (select p rows) rows refl (Covers-select p rows)

  -- A row that is marked is no longer live.
  nothing_left :
      (group_id : ℕ) (group rows : List Reservation)
      → Covers (λ r. r.group_id == group_id && is_live r.status) group rows
      → group_rows group_id (map (mark group) rows) ≡ []
  unfolding Covers mark
  nothing_left group_id group [] h = refl
  nothing_left group_id group (r ∷ rows) h =
      ground (arith, h.0, nothing_left group_id group rows h.1)

module _ (c : Cancel) (group_id : ℕ) (s s' : Session) (rows : List Reservation) where
  cancel_group_table :
      cancel_group c group_id s ≡ (ok rows, s')
      → s'.reservations ≡ update_all c s.clock (group_rows group_id s.reservations) s.reservations
  unfolding cancel_group flush
  cancel_group_table h = ground (
    arith,
    assign_all_lem c s.clock group s,
    audit_group-quiet c group_id group written,
    push_all-quiet c s.clock group (audit_group c group_id group written).1,
  )
    where
      group : List Reservation
      group = group_rows group_id s.reservations

      written : Session
      written = record s { reservations = update_all c s.clock group s.reservations }

  -- A group cancel that returns leaves no reservation of the group scheduled or active.
  pub cancel_group_complete :
      cancel_group c group_id s ≡ (ok rows, s') → group_rows group_id s'.reservations ≡ []
  cancel_group_complete h =
      ap (group_rows group_id) (
        cancel_group_table h
        ∙ update_all-map c s.clock (group_rows group_id s.reservations) s.reservations)
      ∙ nothing_left c s.clock group_id (group_rows group_id s.reservations) s.reservations
          (Covers-select c s.clock (λ r. r.group_id == group_id && is_live r.status) s.reservations)
