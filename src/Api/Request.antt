-- ===== src/Api/Request.antt =====
-- The end of an HTTP request (`get_session` of backend/corelab_backend/db.py, with
-- `_map_service_error` of api/v1/reservations.py) and of an agent's push (api/agent_ws.py).
use core_lab.Prelude.{Bool, true, false, every, if◌then◌else◌}
use core_lab.Data.Row.{row_ok}
use core_lab.Data.Error.{Error, Result, ok, err}
use core_lab.Session.Tables.{Session}
use core_lab.Session.Exec.{Exec}

-- The errors that the endpoints turn into an HTTPException; the others leave them as they are.
abbrev pub is_http : Error → Bool
is_http Error.integrity_error = false
is_http Error.assertion_error = false
is_http _ = true

-- `await session.commit()`: what is still unflushed is written first, and a constraint that it
-- breaks undoes the transaction.
unfoldable pub commit : {A : Type 0} → Session → Result A → Session → Result A × Session
commit s r s' = if every row_ok s'.reservations then (r, s') else (err Error.integrity_error, s)

-- The three ways out of `get_session`: an HTTPException commits too.
unfoldable pub settle_request : {A : Type 0} → Session → Result A → Session → Result A × Session
settle_request s (ok a) s' = commit s (ok a) s'
settle_request s (err e) s' = if is_http e then commit s (err e) s' else (err e, s)

unfoldable pub request : {A : Type 0} → Exec A → Exec A
request m s = let (r, s') = m s in settle_request s r s'

-- A push commits if its handler returns, and is rolled back if it raises.
unfoldable pub settle_push : {A : Type 0} → Session → Result A → Session → Result A × Session
settle_push s (ok a) s' = commit s (ok a) s'
settle_push s (err e) s' = (err e, s)

unfoldable pub on_push : {A : Type 0} → Exec A → Exec A
on_push m s = let (r, s') = m s in settle_push s r s'
