-- ===== src/Lifecycle/Once.antt =====
-- A second dispatch of a script (`mark_script_dispatched`).
use core_lab.Data.Error.{Error}
use core_lab.Session.Tables.{Session}
