-- ===== src/Data/Status.antt =====
-- The two status columns of a reservation and their transition tables
-- (backend/corelab_backend/services/reservation_service.py).
use core_lab.Prelude.{Bool, true, false, Option, none, some, List, [], ◌∷◌, ◌||◌}

pub data Status : Type 0 where
  scheduled active completed cancelled failed : Status

pub data ScriptStatus : Type 0 where
  running completed failed killed : ScriptStatus

abbrev pub status_eq : Status → Status → Bool
status_eq Status.scheduled Status.scheduled = true
status_eq Status.active Status.active = true
status_eq Status.completed Status.completed = true
status_eq Status.cancelled Status.cancelled = true
status_eq Status.failed Status.failed = true
status_eq _ _ = false

abbrev pub script_eq : ScriptStatus → ScriptStatus → Bool
script_eq ScriptStatus.running ScriptStatus.running = true
script_eq ScriptStatus.completed ScriptStatus.completed = true
script_eq ScriptStatus.failed ScriptStatus.failed = true
script_eq ScriptStatus.killed ScriptStatus.killed = true
script_eq _ _ = false

abbrev pub status_in : Status → List Status → Bool
status_in s [] = false
status_in s (t ∷ ts) = status_eq s t || status_in s ts

abbrev pub script_in : ScriptStatus → List ScriptStatus → Bool
script_in s [] = false
script_in s (t ∷ ts) = script_eq s t || script_in s ts

abbrev pub active_statuses : List Status
active_statuses = Status.scheduled ∷ Status.active ∷ []

abbrev pub terminal_statuses : List Status
terminal_statuses = Status.completed ∷ Status.cancelled ∷ Status.failed ∷ []

-- `_ALLOWED_TRANSITIONS`
abbrev pub allowed_transitions : Status → List Status
allowed_transitions Status.scheduled = Status.active ∷ Status.cancelled ∷ []
allowed_transitions Status.active = Status.completed ∷ Status.failed ∷ Status.cancelled ∷ []
allowed_transitions Status.completed = []
allowed_transitions Status.cancelled = []
allowed_transitions Status.failed = []

-- `_ALLOWED_SCRIPT_TRANSITIONS`; `none` is NULL, not yet fired.
abbrev pub allowed_script_transitions : Option ScriptStatus → List ScriptStatus
allowed_script_transitions none = ScriptStatus.running ∷ []
allowed_script_transitions (some ScriptStatus.running) =
    ScriptStatus.completed ∷ ScriptStatus.failed ∷ ScriptStatus.killed ∷ []
allowed_script_transitions (some ScriptStatus.completed) = []
allowed_script_transitions (some ScriptStatus.failed) = []
allowed_script_transitions (some ScriptStatus.killed) = []

abbrev pub is_live : Status → Bool
is_live s = status_in s active_statuses

-- `r.script_status == s` where the column may be NULL.
abbrev pub is_script : ScriptStatus → Option ScriptStatus → Bool
is_script s none = false
is_script s (some t) = script_eq t s
