-- ===== src/Booking/Validate.antt =====
-- The checks of a request that need no lock: times, the server's limit, the account link, and the
-- shape of rows without a GPU.
pub mod Meaning
use core_lab.Prelude.{
  ℕ, ◌-◌, ◌*◌, Bool, true, false, ◌&&◌, not, Option, none, some, ◌==◌, ltb, leb, length, is_some,
  is_none, if◌then◌else◌,
}
use core_lab.Data.Row.{Text, Instant, seconds, LinkSource, AccountLink, Server, ItemDraft}
use core_lab.Data.Error.{
  Check, ok, err, require, ◌and_then◌, invalid_time, too_long, no_active_link, link_not_verified,
  script_too_large,
}
use core_lab.Session.Tables.{Session}

abbrev pub script_max_bytes : ℕ
script_max_bytes = 4096

-- `timedelta(minutes=5)`
abbrev pub grace : ℕ
grace = seconds 300

abbrev pub hours : ℕ → ℕ
hours n = seconds (n * 3600)

-- `requested_hours > max_hours`, over the whole duration in microseconds
unfoldable pub exceeds_limit : Option ℕ → ℕ → Bool
exceeds_limit none duration = false
exceeds_limit (some max_hours) duration = ltb (hours max_hours) duration

within_limit : Server → ItemDraft → Check
unfolding exceeds_limit
within_limit server item = elim server.max_reservation_hours [
  | none ↦ ok tt
  | some max_hours ↦
      require (not (exceeds_limit (some max_hours) (item.end_at - item.start_at)))
        (too_long max_hours (item.end_at - item.start_at))
]

server_limit : Option Server → ItemDraft → Check
unfolding within_limit
server_limit none item = err invalid_time
server_limit (some server) item = within_limit server item

-- `_validate_item_time`, which drops the offsets; `now` is in UTC.
unfoldable pub validate_item_time : Session → Instant → ItemDraft → Check
unfolding server_limit
validate_item_time s now item =
    require (ltb item.start_at item.end_at) invalid_time
    and_then require (leb (now - grace) item.start_at) invalid_time
    and_then server_limit (s.servers item.server_id) item

abbrev is_admin_declared : LinkSource → Bool
is_admin_declared LinkSource.admin_declared = true
is_admin_declared _ = false

link_usable : ℕ → Option AccountLink → Check
link_usable user_id none = err no_active_link
link_usable user_id (some link) =
    require (link.is_active && link.user_id == user_id) no_active_link
    and_then require (not (is_admin_declared link.source)) link_not_verified

-- `_load_link_or_raise`
unfoldable pub load_link : Session → ℕ → ℕ → Check
unfolding link_usable
load_link s account_link_id user_id = link_usable user_id (s.links account_link_id)

-- `start_at <= script_scheduled_start_at < end_at`, where an explicit start is given
unfoldable pub script_start_within : Option Instant → ItemDraft → Check
script_start_within none item = ok tt
script_start_within (some t) item = require (leb item.start_at t && ltb t item.end_at) invalid_time

unfoldable pub script_size : Option Text → Check
script_size none = ok tt
script_size (some script) = require (leb (length script) script_max_bytes) script_too_large

-- A row without a GPU needs a script and takes no share of a GPU.
unfoldable pub item_shape : Option Text → ItemDraft → Check
item_shape script item =
    if is_none item.gpu_id
    then require (is_some script) invalid_time
      and_then require (is_none item.gpu_memory_mb && is_none item.gpu_compute_share_pct)
          invalid_time
    else ok tt

-- One round of the pre-pass of `create_reservation_batch`. The start of the script has the offset of
-- the window, so that comparing them compares the readings.
unfoldable pub validate_item : Session → Instant → ℕ → Option Instant → ItemDraft → Check
unfolding validate_item_time load_link script_start_within
validate_item s now user_id script_start item =
    validate_item_time s now item
    and_then load_link s item.account_link_id user_id
    and_then script_start_within script_start item
