-- ===== src/Data/Row.antt =====
-- The tables that the reservation services read and write, and what the database takes in a
-- row of the `reservation` table. An instant is a number of microseconds, of the time that the
-- columns hold.
use core_lab.Prelude.{
  ℕ, Bool, true, ◌&&◌, Option, none, some, List, [], ◌∷◌, ltb, leb, ◌*◌, ◌+◌, length, if◌then◌else◌,
}
use core_lab.Data.Status.{Status, ScriptStatus}

-- A process's exit code; `negsuc n` is -(n + 1).
pub data ℤ : Type 0 where
  pos : ℕ → ℤ
  negsuc : ℕ → ℤ

-- Text as its code points; a script as its UTF-8 bytes.
abbrev pub Text : Type 0
Text = List ℕ

abbrev pub Instant : Type 0
Instant = ℕ

abbrev pub seconds : ℕ → ℕ
seconds n = n * 1_000_000

pub record Reservation : Type 0 where
  pub id : ℕ
  pub user_id : ℕ
  pub server_id : ℕ
  pub gpu_id : Option ℕ
  pub account_link_id : ℕ
  pub group_id : ℕ
  pub start_at : Instant
  pub end_at : Instant
  pub status : Status
  pub gpu_memory_mb : Option ℕ
  pub gpu_compute_share_pct : Option ℕ
  pub script : Option Text
  pub script_scheduled_start_at : Option Instant
  pub script_max_runtime_seconds : Option ℕ
  pub script_started_at : Option Instant
  pub script_finished_at : Option Instant
  pub script_exit_code : Option ℤ
  pub script_output_size_bytes : Option ℕ
  pub script_log_path : Option Text
  pub script_log_tail_text : Option Text
  pub script_log_tail_truncated : Bool
  pub script_status : Option ScriptStatus
  pub script_dispatch_started_at : Option Instant
  pub cancelled_at : Option Instant
  pub cancelled_by_user_id : Option ℕ
  pub cancellation_reason : Option Text

-- ck_res_time_order
abbrev time_order : Reservation → Bool
time_order r = ltb r.start_at r.end_at

-- ck_res_script_time
abbrev script_time : Reservation → Bool
script_time r = elim r.script_scheduled_start_at [
  | none ↦ true
  | some t ↦ leb r.start_at t && ltb t r.end_at
]

-- ck_res_compute_pct
abbrev compute_pct : Reservation → Bool
compute_pct r = elim r.gpu_compute_share_pct [ none ↦ true | some p ↦ leb 1 p && leb p 100 ]

-- The bytes of a code point in UTF-8.
abbrev utf8_size : ℕ → ℕ
utf8_size c = if ltb c 128 then 1 else if ltb c 2048 then 2 else if ltb c 65536 then 3 else 4

unfoldable pub byte_length : Text → ℕ
byte_length [] = 0
byte_length (c ∷ text) = utf8_size c + byte_length text

-- The most bytes that a `TEXT` column takes.
abbrev pub text_max_bytes : ℕ
text_max_bytes = 65535

-- `script_log_tail_text` is `TEXT`.
unfoldable pub tail_fits : Option Text → Bool
tail_fits none = true
tail_fits (some text) = leb (byte_length text) text_max_bytes

-- `script` is `TEXT`; it is given by its bytes.
unfoldable pub script_fits : Option Text → Bool
script_fits none = true
script_fits (some script) = leb (length script) text_max_bytes

-- What the database takes: the CHECK constraints of the table, where those on the status columns
-- hold by their types, and the length of its texts.
unfoldable pub row_ok : Reservation → Bool
row_ok r =
    time_order r
    && (script_time r
        && (compute_pct r && (script_fits r.script && tail_fits r.script_log_tail_text)))

pub data LinkSource : Type 0 where
  ssh_challenge password_pam admin_prepared_then_ssh admin_declared : LinkSource

-- Of an account link, a server and a GPU, the columns that the reservation services read.
pub record AccountLink : Type 0 where
  pub user_id : ℕ
  pub physical_account_id : ℕ
  pub source : LinkSource
  pub is_active : Bool

pub record Server : Type 0 where
  pub lab_id : ℕ
  pub max_reservation_hours : Option ℕ

pub record Gpu : Type 0 where
  pub memory_total_mb : Option ℕ

-- One row's worth of reservation input (`ItemDraft`). Its times are readings of a clock, without the
-- offset that a request may give and that the checks and the database drop.
pub record ItemDraft : Type 0 where
  pub server_id : ℕ
  pub gpu_id : Option ℕ
  pub start_at : Instant
  pub end_at : Instant
  pub account_link_id : ℕ
  pub gpu_memory_mb : Option ℕ
  pub gpu_compute_share_pct : Option ℕ
