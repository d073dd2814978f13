-- ===== src/Tests.antt =====
-- A sample state, and the theorems at it.
pub mod Booking
pub mod Lifecycle
pub mod Scheduler
pub mod Api
pub mod RateLimit
pub mod Agent
pub mod Recommender
pub mod Accounts
pub mod Users
use core_lab.Prelude.{
  ℕ, true, false, Option, none, some, List, [], ◌∷◌, ◌==◌, ◌+◌, ◌*◌, if◌then◌else◌,
}
use core_lab.Data.Status.{Status, ScriptStatus}
use core_lab.Data.Row.{Text, Instant, Reservation, LinkSource, AccountLink, Server, Gpu, ItemDraft}
use core_lab.Session.Tables.{Session}
use core_lab.Booking.Create.{BatchRequest}
use core_lab.Lifecycle.Cancel.{Cancel}

abbrev pub today : Instant
today = 1_700_000_000_000_000

abbrev pub hour : ℕ → Instant
hour n = today + n * 3_600_000_000

-- A scheduled reservation of 8 GB and half the compute of GPU 5, from the first hour to the third.
abbrev pub shared_row : Reservation
shared_row = record {
  id = 1;
  user_id = 9;
  server_id = 2;
  gpu_id = some 5;
  account_link_id = 3;
  group_id = 40;
  start_at = hour 1;
  end_at = hour 3;
  status = Status.scheduled;
  gpu_memory_mb = some 8000;
  gpu_compute_share_pct = some 50;
  script = some (104 ∷ 105 ∷ []);
  script_scheduled_start_at = some (hour 1);
  script_max_runtime_seconds = none;
  script_started_at = none;
  script_finished_at = none;
  script_exit_code = none;
  script_output_size_bytes = none;
  script_log_path = none;
  script_log_tail_text = none;
  script_log_tail_truncated = false;
  script_status = none;
  script_dispatch_started_at = none;
  cancelled_at = none;
  cancelled_by_user_id = none;
  cancellation_reason = none;
}

abbrev pub link : AccountLink
link = record {
  user_id = 9;
  physical_account_id = 6;
  source = LinkSource.ssh_challenge;
  is_active = true;
}

abbrev pub server : Server
server = record { lab_id = 7; max_reservation_hours = some 24 }

abbrev pub gpu : Gpu
gpu = record { memory_total_mb = some 24000 }

-- A session with the given rows.
abbrev pub session_with : List Reservation → Session
session_with rows = record {
  reservations = rows;
  next_id = 10;
  links = λ n. if n == 3 then some link else none;
  servers = λ n. if n == 2 then some server else none;
  gpus = λ n. if n == 5 then some gpu else none;
  linux_usernames = λ n. if n == 6 then some (120 ∷ []) else none;
  clock = today;
  audits = [];
  notifications = [];
  pushes = [];
}

abbrev pub sample : Session
sample = session_with (shared_row ∷ [])

-- 4 GB more of the same GPU, in the second hour.
abbrev pub shared_item : ItemDraft
shared_item = record {
  server_id = 2;
  gpu_id = some 5;
  start_at = hour 2;
  end_at = hour 4;
  account_link_id = 3;
  gpu_memory_mb = some 4000;
  gpu_compute_share_pct = some 50;
}

abbrev pub exclusive_item : ItemDraft
exclusive_item = record shared_item { gpu_memory_mb = none; gpu_compute_share_pct = none }

abbrev pub request_of : List ItemDraft → BatchRequest
request_of items = record {
  items = items;
  user_id = 9;
  lab_id = 7;
  script = none;
  script_scheduled_start_at = none;
  script_max_runtime_seconds = none;
  share_script = false;
  now = today;
}

abbrev pub by_owner : Cancel
by_owner = record { actor_user_id = 9; actor_can_admin = false; reason = none; lab_id = 7 }
