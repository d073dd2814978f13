-- ===== src/Api/History.antt =====
-- Any sequence of requests, pushes and ticks. A group cancel is not among the operations.
use core_lab.Prelude.{ℕ, ◌+◌, ◌≡◌, true, some, List, [], ◌∷◌, every, Bool-cases, inl, inr}
use core_lab.Data.Status.{status_in, terminal_statuses}
use core_lab.Data.Row.{Reservation, row_ok}
use core_lab.Data.Error.{Error, Result, ok, err}
use core_lab.Session.Tables.{Session, find}
use core_lab.Session.Exec.{Exec}
use core_lab.Session.Rule.{Takes}
use core_lab.Booking.Create.{BatchRequest, create_reservation_batch}
use core_lab.Booking.Modify.{Edit, modify_reservation}
use core_lab.Booking.Create.Effects.{create_reservation_batch-Moves}
use core_lab.Booking.Modify.Effects.{modify_reservation-Moves}
use core_lab.Lifecycle.Moves.{Moves, Moves-refl, Moves-trans, Leads-terminal}
use core_lab.Lifecycle.Cancel.{Cancel, cancel_reservation}
use core_lab.Lifecycle.Events.{
  ScriptStarted, ScriptOutputChunk, ScriptFinished, on_script_started, on_script_output_chunk,
  on_script_finished,
}
use core_lab.Lifecycle.FollowEvents.{
  cancel_reservation-Moves, on_script_started-Moves, on_script_output_chunk-Moves,
  on_script_finished-Moves,
}
use core_lab.Scheduler.Watchdog.{tick_body}
use core_lab.Scheduler.Follow.{tick_body-Moves}
use core_lab.Api.Request.{commit, settle_request, request, settle_push, on_push}

pub data Operation : Type 0 where
  create : BatchRequest → (group_id : ℕ) → Operation
  modify : Edit → Operation
  cancel : Cancel → (reservation_id : ℕ) → Operation
  script_started : ScriptStarted → (lab_id : ℕ) → Operation
  script_output : ScriptOutputChunk → Operation
  script_finished : ScriptFinished → (lab_id : ℕ) → Operation
  tick : Operation
  -- the clock moves on
  wait : ℕ → Operation

-- The session after an operation.
unfoldable pub perform : Operation → Session → Session
perform (create req group_id) s = (request (create_reservation_batch req group_id) s).1
perform (modify e) s = (request (modify_reservation e) s).1
perform (cancel c n) s = (request (cancel_reservation c n) s).1
perform (script_started p lab_id) s = (on_push (on_script_started p lab_id) s).1
perform (script_output p) s = (on_push (on_script_output_chunk p) s).1
perform (script_finished p lab_id) s = (on_push (on_script_finished p lab_id) s).1
perform tick s = (tick_body s).1
perform (wait n) s = record s { clock = s.clock + n }

unfoldable pub run : List Operation → Session → Session
run [] s = s
run (o ∷ os) s = run os (perform o s)

commit-Moves :
    {A : Type 0} (s : Session) (r : Result A) (s' : Session)
    → Moves s.reservations s'.reservations
    → Moves s.reservations (commit s r s').1.reservations
unfolding commit
commit-Moves s r s' h = elim (Bool-cases (every row_ok s'.reservations)) [
  | inl valid ↦ rw valid h
  | inr broken ↦ rw broken (Moves-refl s.reservations)
]

settle_request-Moves :
    {A : Type 0} (s : Session) (r : Result A) (s' : Session)
    → Moves s.reservations s'.reservations
    → Moves s.reservations (settle_request s r s').1.reservations
unfolding settle_request
settle_request-Moves s (ok a) s' h = commit-Moves s (ok a) s' h
settle_request-Moves s (err Error.integrity_error) s' h = Moves-refl s.reservations
settle_request-Moves s (err Error.assertion_error) s' h = Moves-refl s.reservations
settle_request-Moves s (err e) s' h = commit-Moves s (err e) s' h

settle_push-Moves :
    {A : Type 0} (s : Session) (r : Result A) (s' : Session)
    → Moves s.reservations s'.reservations
    → Moves s.reservations (settle_push s r s').1.reservations
unfolding settle_push
settle_push-Moves s (ok a) s' h = commit-Moves s (ok a) s' h
settle_push-Moves s (err e) s' h = Moves-refl s.reservations

module _ {A : Type 0} (m : Exec A) (s : Session) (h : Takes Moves m s) where
  request-Moves : Takes Moves (request m) s
  unfolding request
  request-Moves = settle_request-Moves s (m s).0 (m s).1 h

  on_push-Moves : Takes Moves (on_push m) s
  unfolding on_push
  on_push-Moves = settle_push-Moves s (m s).0 (m s).1 h

perform-Moves : (o : Operation) (s : Session) → Moves s.reservations (perform o s).reservations
unfolding perform
perform-Moves (Operation.create req group_id) s =
    request-Moves (create_reservation_batch req group_id) s
      (create_reservation_batch-Moves req group_id s)
perform-Moves (Operation.modify e) s =
    request-Moves (modify_reservation e) s (modify_reservation-Moves e s)
perform-Moves (Operation.cancel c n) s =
    request-Moves (cancel_reservation c n) s (cancel_reservation-Moves c n s)
perform-Moves (Operation.script_started p lab_id) s =
    on_push-Moves (on_script_started p lab_id) s (on_script_started-Moves p lab_id s)
perform-Moves (Operation.script_output p) s =
    on_push-Moves (on_script_output_chunk p) s (on_script_output_chunk-Moves p s)
perform-Moves (Operation.script_finished p lab_id) s =
    on_push-Moves (on_script_finished p lab_id) s (on_script_finished-Moves p lab_id s)
perform-Moves Operation.tick s = tick_body-Moves s
perform-Moves (Operation.wait n) s = Moves-refl s.reservations

-- Whatever sequence of creations, edits, single cancels, script pushes and ticks is performed,
-- each row that was found is found afterwards, and both its status columns have walked along
-- edges of their transition tables.
run-Moves : (os : List Operation) (s : Session) → Moves s.reservations (run os s).reservations
unfolding run
run-Moves [] s = Moves-refl s.reservations
run-Moves (o ∷ os) s = Moves-trans (perform-Moves o s) (run-Moves os (perform o s))

-- A row that is found with a terminal status is still found after any sequence of creations, edits,
-- single cancels, script pushes and ticks, with the same status.
pub run-terminal :
    (os : List Operation) (s : Session) (n : ℕ) (r : Reservation)
    → find n s.reservations ≡ some r
    → status_in r.status terminal_statuses ≡ true
    → (r' : Reservation) × (find n (run os s).reservations ≡ some r') × (r'.status ≡ r.status)
run-terminal os s n r found done =
    let (r', found', follows) = (run-Moves os s).at n r found in
    (r', found', Leads-terminal follows.status done)
