-- ===== src/Lifecycle/FollowEvents.antt =====
-- Cancelling and the agent's pushes, and the state machines of the rows.
use core_lab.Prelude.{
  ℕ, ◌≡◌, refl, sym, subst, ◌∙◌, ap, true, Option, none, some, List, arith, is_none, is_empty,
  Option-cases, inl, inr, if◌then◌else◌,
}
use core_lab.Data.Status.{Status, ScriptStatus, status_in, is_script, allowed_transitions}
use core_lab.Data.Row.{Text, Reservation}
use core_lab.Session.Tables.{Session, Trigger, NotificationType, Severity, find}
use core_lab.Session.Exec.{Exec, pure, assign, flush, ◌>>◌}
use core_lab.Session.Rows.{KeepsId, id-find}
use core_lab.Session.Rule.{Takes, bind-Takes, if-Takes}
use core_lab.Session.Write.{reservations-notified}
use core_lab.Lifecycle.Moves.{
  Leads, LeadsScript, Follows, Follows-same, Moves, Moves-refl, Moves-trans,
}
use core_lab.Lifecycle.Follow.{
  update_if-Moves, from_found, assign-Moves, update_script_status-Moves,
}
use core_lab.Lifecycle.Script.{
  append_script_log_tail, append_tail, update_script_status, script_log_tail_max_chars,
}
use core_lab.Lifecycle.Cancel.{Cancel, cancel_reservation, set_cancelled}
use core_lab.Lifecycle.Cancel.Effects.{cancellable, cancel_reservation_table}
use core_lab.Lifecycle.Events.{
  ScriptStarted, ScriptOutputChunk, ScriptFinished, started_row, finished_row, chunk_row,
  on_script_started, on_script_output_chunk, on_script_finished, ack_running, ack_unfired,
  finish_running, acknowledge, notify_script_event, set_acked, set_log_path, set_finished,
  final_status, finished_type, finished_severity,
}

-- A row that may be cancelled stands where an edge to `cancelled` begins.
cancellable-allowed :
    (c : Cancel) (row : Reservation)
    → cancellable c row ≡ true
    → status_in Status.cancelled (allowed_transitions row.status) ≡ true
cancellable-allowed c row h = ground arith

-- The row that was found by a key is found by its own.
pub found_again :
    (n : ℕ) (rows : List Reservation) (row : Reservation)
    → find n rows ≡ some row
    → find row.id rows ≡ some row
found_again n rows row h = ap (λ k. find k rows) (id-find n rows row h) ∙ h

pub cancel_reservation-Moves :
    (c : Cancel) (n : ℕ) (s : Session) → Takes Moves (cancel_reservation c n) s
cancel_reservation-Moves c n s = elim (Option-cases (find n s.reservations)) [
  | inl missing ↦ subst (Moves s.reservations) (sym (unchanged missing)) (Moves-refl s.reservations)
  | inr (row, found) ↦ rw (cancel_reservation_table c n s row found) (
      update_if-Moves (cancellable c row) row.id (set_cancelled c s.clock) s.reservations (λ r h. h)
        (λ may.
          from_found row s (set_cancelled c s.clock) (found_again n s.reservations row found)
            (record {
              status = Leads.next _ Leads.here (cancellable-allowed c row may);
              script = LeadsScript.here;
            })))
]
  where
    unchanged :
        find n s.reservations ≡ none → (cancel_reservation c n s).1.reservations ≡ s.reservations
    unchanged missing = unfold cancel_reservation in ground arith

pub compose-Moves : (a b c : List Reservation) → Moves a b → Moves b c → Moves a c
compose-Moves a b c p q = Moves-trans p q

notify_script_event-Moves :
    (row : Reservation) (type : NotificationType) (severity : Severity) (s : Session)
    → Takes Moves (notify_script_event row type severity) s
unfolding notify_script_event
notify_script_event-Moves row type severity s = rw reservations-notified (Moves-refl s.reservations)

acknowledge-Moves :
    (row : Reservation) (payload : ScriptStarted) (lab_id : ℕ) (s : Session)
    → Takes Moves (acknowledge row payload lab_id) s
unfolding acknowledge notify_script_event
acknowledge-Moves row payload lab_id s = rw reservations-notified (Moves-refl s.reservations)

pub flush-Moves : (s : Session) → Takes Moves flush s
unfolding flush
flush-Moves s = Moves-refl s.reservations

set_log_path-Follows : (path : Option Text) (r : Reservation) → Follows r (set_log_path path r)
set_log_path-Follows path r = Follows-same r (set_log_path path r) (ground arith) (ground arith)

set_acked-Follows : (payload : ScriptStarted) (r : Reservation) → Follows r (set_acked payload r)
set_acked-Follows payload r = Follows-same r (set_acked payload r) (ground arith) (ground arith)

set_finished-Follows :
    (payload : ScriptFinished) (r : Reservation) → Follows r (set_finished payload r)
set_finished-Follows payload r =
    Follows-same r (set_finished payload r) (ground arith) (ground arith)

append_tail-Follows : (n : ℕ) (text : Text) (r : Reservation) → Follows r (append_tail n text r)
unfolding append_tail
append_tail-Follows n text r = Follows-same r (append_tail n text r) (ground arith) (ground arith)

-- An assignment that is flushed, before anything else.
pub flushed-Moves :
    {A : Type 0} (n : ℕ) (f : Reservation → Reservation) (rest : Exec A) (s : Session)
    → KeepsId n f
    → ((r : Reservation) → Follows r (f r))
    → ((s' : Session) → Takes Moves rest s')
    → Takes Moves (do assign n f; flush; rest) s
flushed-Moves n f rest s keep step later =
    bind-Takes Moves compose-Moves (assign n f) (λ _. do flush; rest) s
      (assign-Moves n f s keep step)
      (λ _ s₁ _.
        bind-Takes Moves compose-Moves flush (λ _. rest) s₁ (flush-Moves s₁) (λ _ s₂ _. later s₂))

module _ (row : Reservation) (lab_id : ℕ) where
  ack_running-Moves :
      (payload : ScriptStarted) (s : Session) → Takes Moves (ack_running row payload lab_id) s
  unfolding ack_running
  ack_running-Moves payload s =
      flushed-Moves row.id (set_acked payload) (acknowledge row payload lab_id) s
        (λ r h. ground arith) (set_acked-Follows payload) (acknowledge-Moves row payload lab_id)

  ack_unfired-Moves :
      (payload : ScriptStarted) (s : Session)
      → find row.id s.reservations ≡ some row
      → Takes Moves (ack_unfired row payload lab_id) s
  unfolding ack_unfired
  ack_unfired-Moves payload s found =
      bind-Takes Moves compose-Moves
        (update_script_status row ScriptStatus.running lab_id Trigger.agent_script_started none
          (some payload.started_at) none)
        (λ _. do
          assign row.id (set_log_path payload.log_path)
          flush
          acknowledge row payload lab_id)
        s
        (update_script_status-Moves row lab_id s found ScriptStatus.running
          Trigger.agent_script_started none (some payload.started_at) none)
        (λ _ s₁ _.
          flushed-Moves row.id (set_log_path payload.log_path) (acknowledge row payload lab_id) s₁
            (λ r h. ground arith) (set_log_path-Follows payload.log_path)
            (acknowledge-Moves row payload lab_id))

  finish_running-Moves :
      (payload : ScriptFinished) (s : Session)
      → find row.id s.reservations ≡ some row
      → Takes Moves (finish_running row payload lab_id) s
  unfolding finish_running
  finish_running-Moves payload s found =
      bind-Takes Moves compose-Moves
        (update_script_status row (final_status payload) lab_id Trigger.agent_script_finished
          payload.exit_code none (some payload.finished_at))
        (λ _. do assign row.id (set_finished payload); flush; notify_script_event row type severity)
        s
        (update_script_status-Moves row lab_id s found (final_status payload)
          Trigger.agent_script_finished payload.exit_code none (some payload.finished_at))
        (λ _ s₁ _.
          flushed-Moves row.id (set_finished payload) (notify_script_event row type severity) s₁
            (λ r h. ground arith) (set_finished-Follows payload)
            (notify_script_event-Moves row type severity))
    where
      type : NotificationType
      type = finished_type (final_status payload)

      severity : Severity
      severity = finished_severity (final_status payload)

-- What a lookup by key returned is found by its own key.
abbrev pub Found : Session → Option Reservation → Type 0
Found s o = (row : Reservation) → o ≡ some row → find row.id s.reservations ≡ some row

pub lookup-Found : (n : ℕ) (s : Session) → Found s (find n s.reservations)
lookup-Found n s row h = found_again n s.reservations row h

started_row-Moves :
    (payload : ScriptStarted) (lab_id : ℕ) (o : Option Reservation) (s : Session)
    → Found s o
    → Takes Moves (started_row payload lab_id o) s
unfolding started_row
started_row-Moves payload lab_id none s f = Moves-refl s.reservations
started_row-Moves payload lab_id (some row) s f =
    if-Takes Moves (is_script ScriptStatus.running row.script_status)
      (ack_running row payload lab_id)
      (if is_none row.script_status then ack_unfired row payload lab_id else pure tt) s
      (ack_running-Moves row lab_id payload s)
      (if-Takes Moves (is_none row.script_status) (ack_unfired row payload lab_id) (pure tt) s
        (ack_unfired-Moves row lab_id payload s (f row refl)) (Moves-refl s.reservations))

pub on_script_started-Moves :
    (payload : ScriptStarted) (lab_id : ℕ) (s : Session)
    → Takes Moves (on_script_started payload lab_id) s
unfolding on_script_started
on_script_started-Moves payload lab_id s =
    started_row-Moves payload lab_id (find payload.reservation_id s.reservations) s
      (lookup-Found payload.reservation_id s)

finished_row-Moves :
    (payload : ScriptFinished) (lab_id : ℕ) (o : Option Reservation) (s : Session)
    → Found s o
    → Takes Moves (finished_row payload lab_id o) s
unfolding finished_row
finished_row-Moves payload lab_id none s f = Moves-refl s.reservations
finished_row-Moves payload lab_id (some row) s f =
    bind-Takes Moves compose-Moves
      (if is_script ScriptStatus.running row.script_status
        then finish_running row payload lab_id
        else pure tt)
      (λ _. pure payload.killed_by_corelab) s
      (if-Takes Moves (is_script ScriptStatus.running row.script_status)
        (finish_running row payload lab_id) (pure tt) s
        (finish_running-Moves row lab_id payload s (f row refl)) (Moves-refl s.reservations))
      (λ _ s₁ _. Moves-refl s₁.reservations)

pub on_script_finished-Moves :
    (payload : ScriptFinished) (lab_id : ℕ) (s : Session)
    → Takes Moves (on_script_finished payload lab_id) s
unfolding on_script_finished
on_script_finished-Moves payload lab_id s =
    finished_row-Moves payload lab_id (find payload.reservation_id s.reservations) s
      (lookup-Found payload.reservation_id s)

append_script_log_tail-Moves :
    (row : Reservation) (text : Text) (n : ℕ) (s : Session)
    → Takes Moves (append_script_log_tail row text n) s
unfolding append_script_log_tail
append_script_log_tail-Moves row text n s =
    if-Takes Moves (is_empty text) (pure tt) (do assign row.id (append_tail n text); flush) s
      (Moves-refl s.reservations)
      (bind-Takes Moves compose-Moves (assign row.id (append_tail n text)) (λ _. flush) s
        (assign-Moves row.id (append_tail n text) s (λ r h. unfold append_tail in ground arith)
          (append_tail-Follows n text))
        (λ _ s₁ _. flush-Moves s₁))

chunk_row-Moves :
    (payload : ScriptOutputChunk) (o : Option Reservation) (s : Session)
    → Takes Moves (chunk_row payload o) s
unfolding chunk_row
chunk_row-Moves payload none s = Moves-refl s.reservations
chunk_row-Moves payload (some row) s =
    append_script_log_tail-Moves row payload.text script_log_tail_max_chars s

pub on_script_output_chunk-Moves :
    (payload : ScriptOutputChunk) (s : Session) → Takes Moves (on_script_output_chunk payload) s
unfolding on_script_output_chunk
on_script_output_chunk-Moves payload s =
    chunk_row-Moves payload (find payload.reservation_id s.reservations) s
