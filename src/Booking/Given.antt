-- ===== src/Booking/Given.antt =====
-- The times of an item as a request gives them: a `datetime` with its offset from UTC, or without
-- one. Creating a batch drops the offset (`replace(tzinfo=None)`), so the times of an `ItemDraft` are
-- readings of a clock without it; the preview compares the times as they are given.
use core_lab.Prelude.{ℕ, ◌+◌, ◌-◌, Bool, Option, none, some, ltb, leb}
use core_lab.Data.Row.{Instant, ItemDraft}

-- An offset: the microseconds that the clock is ahead of UTC and behind it.
pub record Zone : Type 0 where
  pub ahead : ℕ
  pub behind : ℕ

abbrev pub utc : Zone
utc = record { ahead = 0; behind = 0 }

pub record Datetime : Type 0 where
  pub reading : Instant
  pub zone : Option Zone

-- `a < b`; a `TypeError` where one of them has an offset and the other has none.
unfoldable pub is_before : Datetime → Datetime → Option Bool
is_before a b = elim a.zone [
  | none ↦ elim b.zone [ none ↦ some (ltb a.reading b.reading) | some y ↦ none ]
  | some x ↦ elim b.zone [
    | none ↦ none
    | some y ↦ some (ltb (a.reading + x.behind + y.ahead) (b.reading + y.behind + x.ahead))
  ]
]

-- `a <= b`
unfoldable pub is_at_most : Datetime → Datetime → Option Bool
is_at_most a b = elim a.zone [
  | none ↦ elim b.zone [ none ↦ some (leb a.reading b.reading) | some y ↦ none ]
  | some x ↦ elim b.zone [
    | none ↦ none
    | some y ↦ some (leb (a.reading + x.behind + y.ahead) (b.reading + y.behind + x.ahead))
  ]
]

abbrev ahead_of : Option Zone → ℕ
ahead_of none = 0
ahead_of (some x) = x.ahead

abbrev behind_of : Option Zone → ℕ
behind_of none = 0
behind_of (some x) = x.behind

-- `b - a`, where `a` is before `b`.
abbrev pub elapsed : Datetime → Datetime → ℕ
elapsed a b =
    (b.reading + behind_of b.zone + ahead_of a.zone)
    - (a.reading + behind_of a.zone + ahead_of b.zone)

-- An item of a request: the draft without the offsets, and the offsets of its two times.
pub record GivenItem : Type 0 where
  pub draft : ItemDraft
  pub start_zone : Option Zone
  pub end_zone : Option Zone

abbrev pub given_start : GivenItem → Datetime
given_start item = record { reading = item.draft.start_at; zone = item.start_zone }

abbrev pub given_end : GivenItem → Datetime
given_end item = record { reading = item.draft.end_at; zone = item.end_zone }

-- The item with both its times in one zone, or in none.
abbrev pub given_in : Option Zone → ItemDraft → GivenItem
given_in zone item = record { draft = item; start_zone = zone; end_zone = zone }
