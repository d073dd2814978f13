-- ===== src/Booking/Validate/Meaning.antt =====
-- What the pre-pass of a batch lets through.
use core_lab.Prelude.{
  ℕ, ◌+◌, ◌-◌, ◌≤◌, ◌<◌, ◌≡◌, ◌↔◌, refl, true, Option, none, some, arith, ltb, leb,
}
use core_lab.Data.Row.{Instant, LinkSource, AccountLink, Server, ItemDraft}
use core_lab.Data.Error.{ok, require, ◌and_then◌, and_then-ok, invalid_time}
use core_lab.Session.Tables.{Session}
use core_lab.Booking.Validate.{
  grace, hours, validate_item, validate_item_time, load_link, script_start_within, exceeds_limit,
  server_limit, link_usable, within_limit, is_admin_declared,
}

-- The server is known and the duration is within its limit, if it has one.
pub record WithinLimit (server : Option Server) (item : ItemDraft) : Type 0 where
  pub known :
      (sv : Server) × (server ≡ some sv)
      × ((n : ℕ) → sv.max_reservation_hours ≡ some n → item.end_at - item.start_at ≤ hours n)

pub record Usable (user_id : ℕ) (found : Option AccountLink) : Type 0 where
  pub link :
      (l : AccountLink) × (found ≡ some l)
      × (l.is_active ≡ true)
      × (l.user_id ≡ user_id)
      × ¬ (l.source ≡ LinkSource.admin_declared)

pub record Valid (s : Session) (now : Instant) (user_id : ℕ) (script_start : Option Instant)
    (item : ItemDraft) : Type 0 where
  pub order : item.start_at < item.end_at
  pub recent : now ≤ item.start_at + grace
  pub limit : WithinLimit (s.servers item.server_id) item
  pub link : Usable user_id (s.links item.account_link_id)
  pub script : (t : Instant) → script_start ≡ some t → (item.start_at ≤ t) × (t < item.end_at)

within_limit-bound :
    (server : Server) (item : ItemDraft) (n : ℕ)
    → within_limit server item ≡ ok tt
    → server.max_reservation_hours ≡ some n
    → item.end_at - item.start_at ≤ hours n
unfolding within_limit exceeds_limit
within_limit-bound server item n h e = ground (arith, h, e)

within_limit-ok :
    (server : Server) (item : ItemDraft) (m : Option ℕ)
    → server.max_reservation_hours ≡ m
    → ((n : ℕ) → m ≡ some n → item.end_at - item.start_at ≤ hours n)
    → within_limit server item ≡ ok tt
unfolding within_limit exceeds_limit
within_limit-ok server item none e h = ground (arith, e)
within_limit-ok server item (some n) e h = ground (arith, e, h n refl)

server_limit-WithinLimit :
    (o : Option Server) (item : ItemDraft) → (server_limit o item ≡ ok tt) ↔ WithinLimit o item
unfolding server_limit
server_limit-WithinLimit none item = (λ h. cc, λ w. let (sv, e, _) = w.known in cc)
server_limit-WithinLimit (some server) item = (
  λ h. record { known = (server, refl, λ n e. within_limit-bound server item n h e) },
  λ w.
      let (sv, e, bound) = w.known in
      within_limit-ok server item server.max_reservation_hours refl
        (λ n same. ground (arith, e, bound n)),
)

declared-cases :
    (source : LinkSource) → (is_admin_declared source ≡ true) ↔ (source ≡ LinkSource.admin_declared)
declared-cases source = ground arith

link_usable-Usable :
    (user_id : ℕ) (o : Option AccountLink) → (link_usable user_id o ≡ ok tt) ↔ Usable user_id o
unfolding link_usable
link_usable-Usable user_id none = (λ h. cc, λ u. let (l, e, _, _, _) = u.link in cc)
link_usable-Usable user_id (some link) = (
  λ h. record {
    link = (link, refl, ground arith, ground arith, ground (arith, declared-cases link.source));
  },
  λ u.
      let (l, e, active, owner, source) = u.link in
      ground (arith, e, active, owner, source, declared-cases link.source),
)

script_start_within-ok :
    (o : Option Instant) (item : ItemDraft)
    → (script_start_within o item ≡ ok tt)
      ↔ ((t : Instant) → o ≡ some t → (item.start_at ≤ t) × (t < item.end_at))
unfolding script_start_within
script_start_within-ok none item = (λ h t e. cc, λ h. refl)
script_start_within-ok (some t) item = (λ h u e. ground arith, λ h. ground (arith, h t refl))

module _ (s : Session) (now : Instant) (user_id : ℕ) (script_start : Option Instant)
    (item : ItemDraft) where
  -- By the readings of its times, whatever their offset, an item passes the pre-pass of a batch
  -- exactly when its window is not empty and starts at most five minutes before the UTC time, its
  -- server is known and allows the duration, its account link is active, the user's own and
  -- verified, and the reading of a given start of the script, with the same offset, lies in the
  -- window.
  pub validate_item-Valid :
      (validate_item s now user_id script_start item ≡ ok tt)
      ↔ Valid s now user_id script_start item
  unfolding validate_item validate_item_time load_link
  validate_item-Valid = (
    λ h.
        let (times, script_ok) = and_then-ok _ _ tt h in
        let (time_ok, link_ok) = and_then-ok (validate_item_time s now item) _ tt times in
        let (bounds, limit_ok) =
          and_then-ok
            (require (ltb item.start_at item.end_at) invalid_time
              and_then require (leb (now - grace) item.start_at) invalid_time)
            _ tt time_ok in
        record {
          order = ground (arith, bounds);
          recent = ground (arith, bounds);
          limit = (server_limit-WithinLimit (s.servers item.server_id) item).0 limit_ok;
          link = (link_usable-Usable user_id (s.links item.account_link_id)).0 link_ok;
          script = (script_start_within-ok script_start item).0 script_ok;
        },
    λ v. ground (
      arith,
      v.order,
      v.recent,
      (server_limit-WithinLimit (s.servers item.server_id) item).1 v.limit,
      (link_usable-Usable user_id (s.links item.account_link_id)).1 v.link,
      (script_start_within-ok script_start item).1 v.script,
    ),
  )
