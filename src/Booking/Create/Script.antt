-- ===== src/Booking/Create/Script.antt =====
-- When the script of a created row is dispatched.
use core_lab.Prelude.{ℕ, ◌≡◌, ◌&&◌, not, some, arith, leb, or_else, is_empty}
use core_lab.Data.Status.{Status}
use core_lab.Data.Row.{Text, Instant, ItemDraft}
use core_lab.Booking.Create.{BatchRequest, row_of}
use core_lab.Lifecycle.Transition.{set_status}
use core_lab.Scheduler.Tick.{is_dispatchable}

-- A created row that carries a script is selected for dispatch, once it is active, exactly if the
-- script is not empty and its start has come: the requested one, or else the item's own.
pub row_of-dispatchable :
    (req : BatchRequest) (group_id n : ℕ) (script : Text) (item : ItemDraft) (now : Instant)
    → is_dispatchable now (set_status Status.active (row_of req group_id n (some script) item))
      ≡ (not (is_empty script) && leb (or_else item.start_at req.script_scheduled_start_at) now)
unfolding row_of
row_of-dispatchable req group_id n script item now = ground arith
