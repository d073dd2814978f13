-- ===== src/Booking/Preview/Agrees.antt =====
-- The preview, and the checks that creating a batch makes.
use core_lab.Prelude.{
  ℕ, suc, ◌+◌, ◌-◌, ◌<◌, ◌≡◌, ◌↔◌, refl, ap, Option, none, some, List, [], ◌∷◌, ◌++◌, map, arith,
  All, true,
}
use core_lab.Data.Row.{Instant, ItemDraft}
use core_lab.Data.Error.{ok}
use core_lab.Session.Tables.{Session}
use core_lab.Booking.Conflict.{Conflict, classify_conflict}
use core_lab.Booking.Given.{GivenItem, Zone, utc, given_in, is_before, is_at_most}
use core_lab.Booking.Validate.{exceeds_limit, validate_item_time, grace}
use core_lab.Booking.Create.{check_conflict, raise_conflict}
use core_lab.Booking.Preview.{
  PreviewResult, TimeLimitCheck, preview_conflicts, preview_from, preview_item, check_of, added_to,
  bad_time,
}

-- The checks of the time and of the GPU, as `create_reservation_batch` makes them.
abbrev pub Bookable : Session → Instant → ItemDraft → Type 0
Bookable s now item = (validate_item_time s now item ≡ ok tt) × (check_conflict s item ≡ ok tt)

-- The preview answers, and shows no conflict.
abbrev pub IsClean : Option PreviewResult → Type 0
IsClean o = (r : PreviewResult) × (o ≡ some r) × (r.conflicts ≡ [])

abbrev pub in_utc : ItemDraft → GivenItem
in_utc = given_in (some utc)

preview_item-Bookable :
    (s : Session) (now : Instant) (item : ItemDraft)
    → (preview_item s now (in_utc item) ≡ some []) ↔ Bookable s now item
unfolding preview_item validate_item_time check_conflict raise_conflict classify_conflict
    exceeds_limit is_before is_at_most
preview_item-Bookable s now item = (λ h. (ground arith, ground arith), λ (h, k). ground arith)

append-empty {ℓ} : {A : Type ℓ} (xs ys : List A) → (xs ++ ys ≡ []) ↔ ((xs ≡ []) × (ys ≡ []))
append-empty [] ys = (λ h. (refl, h), λ h. h.1)
append-empty (x ∷ xs) ys = (λ h. cc, λ h. cc (h.0))

map-empty {ℓ κ} : {A : Type ℓ} {B : Type κ} (f : A → B) (xs : List A) → (map f xs ≡ []) ↔ (xs ≡ [])
map-empty f [] = (λ h. refl, λ h. refl)
map-empty f (x ∷ xs) = (λ h. cc, λ h. cc)

-- A preview is clean exactly when its first item adds nothing and the rest is clean.
added_to-IsClean :
    (index : ℕ) (p : Option (List Conflict)) (check : TimeLimitCheck) (rest : Option PreviewResult)
    → IsClean (added_to index p check rest) ↔ ((p ≡ some []) × IsClean rest)
added_to-IsClean index none check rest = (λ (r, e, _). cc, λ (h, _). cc)
added_to-IsClean index (some cs) check none = (λ (r, e, _). cc, λ (_, w). cc (w.1))
added_to-IsClean index (some cs) check (some rest) = (
  λ (r, e, empty).
      let parts =
        (append-empty (map (λ c. (index, c)) cs) rest.conflicts).0 (ground (arith, e, empty)) in
      (ap some ((map-empty (λ c. (index, c)) cs).0 parts.0), (rest, refl, parts.1)),
  λ (h, w). (
    _,
    refl,
    (append-empty (map (λ c. (index, c)) cs) rest.conflicts).1
        ((map-empty (λ c. (index, c)) cs).1 (ground (arith, h)), ground (arith, w.1, w.2)),
  ),
)

preview_from-Bookable :
    (s : Session) (now : Instant) (index : ℕ) (items : List ItemDraft)
    → IsClean (preview_from s now index (map in_utc items)) ↔ All (Bookable s now) items
unfolding preview_from
preview_from-Bookable s now index [] = (λ h. tt, λ h. (_, refl, refl))
preview_from-Bookable s now index (item ∷ items) =
    let head =
      added_to-IsClean index (preview_item s now (in_utc item))
        (check_of s index (in_utc item) (bad_time now (in_utc item)))
        (preview_from s now (suc index) (map in_utc items)) in
    let first = preview_item-Bookable s now item in
    let rest = preview_from-Bookable s now (suc index) items in
    (λ h. let (p, q) = head.0 h in (first.0 p, rest.0 q), λ h. head.1 (first.1 h.0, rest.1 h.1))

-- For items whose times are given in UTC, the preview answers and shows no conflict exactly when each
-- item passes the checks of its time and of its GPU that creating the batch makes.
pub preview_conflicts-Bookable :
    (s : Session) (now : Instant) (items : List ItemDraft)
    → IsClean (preview_conflicts s now (map in_utc items)) ↔ All (Bookable s now) items
unfolding preview_conflicts
preview_conflicts-Bookable s now items = preview_from-Bookable s now 0 items

-- If an item passes the checks of its time and of its GPU that creating the batch makes, by the
-- readings of its times, the preview of that item alone fails with a `TypeError` where the times are
-- given without an offset, and calls the time invalid where they are given with an offset by which
-- the start is more than five minutes ago.
pub preview_conflicts-offset :
    (s : Session) (now : Instant) (item : ItemDraft) (zone : Zone)
    → Bookable s now item
    → item.start_at + zone.behind < (now - grace) + zone.ahead
    → (preview_conflicts s now (given_in none item ∷ []) ≡ none)
      × ((r : PreviewResult) × (preview_conflicts s now (given_in (some zone) item ∷ []) ≡ some r)
          × (r.conflicts ≡ (0, Conflict.invalid_time) ∷ []))
unfolding preview_conflicts preview_from preview_item validate_item_time is_before is_at_most
preview_conflicts-offset s now item zone book early = (
  ground (arith, book.0),
  (
    record {
      conflicts = (0, Conflict.invalid_time) ∷ [];
      time_limit_checks = check_of s 0 (given_in (some zone) item) (some true) ∷ [];
    },
    ground (arith, book.0, early),
    refl,
  ),
)
