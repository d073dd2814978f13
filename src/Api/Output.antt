-- ===== src/Api/Output.antt =====
-- A script's output, pushed chunk by chunk.
use core_lab.Prelude.{
  ℕ, ◌≤◌, ◌≡◌, refl, sym, ap, subst, ◌∙◌, Bool, true, false, List, [], ◌∷◌, ◌++◌, map, arith,
  append-nil, every, every-append, is_empty, length, length-drop, leb, ◌-◌, some, or_else,
  Bool-cases, inl, inr, if◌then◌else◌,
}
use core_lab.Data.Row.{Text, Reservation, row_ok, byte_length, tail_fits, text_max_bytes}
use core_lab.Session.Tables.{Session, find, update}
use core_lab.Session.Exec.{flush}
use core_lab.Lifecycle.Script.{
  append_tail, append_script_log_tail, script_log_tail_max_chars, last_chars,
}
use core_lab.Lifecycle.Events.{on_script_output_chunk, chunk_row}
use core_lab.Booking.Modify.Run.{Without, update-one, find-one}
use core_lab.Api.Request.{commit, settle_push, on_push}
use core_lab.Api.History.{Operation, perform, run}

abbrev cap : ℕ
cap = script_log_tail_max_chars

length-byte_length : (text : Text) → length text ≤ byte_length text
unfolding byte_length
length-byte_length [] = ground arith
length-byte_length (c ∷ text) = ground (arith, length-byte_length text)

length-last_chars : (text : Text) → cap ≤ length text → length (last_chars cap text) ≡ cap
unfolding last_chars
length-last_chars text h = ground (arith, h, length-drop (length text - cap) text)

-- The new tail fits in its column exactly when the whole text does: a tail that is cut does not.
module _ (log text : Text) (r : Reservation) (same : or_else [] r.script_log_tail_text ≡ log) where
  tail_fits-append :
      tail_fits (append_tail cap text r).script_log_tail_text
      ≡ leb (byte_length (log ++ text)) text_max_bytes
  unfolding append_tail tail_fits
  tail_fits-append = ground (
    arith,
    same,
    length-byte_length (log ++ text),
    length-byte_length (last_chars cap (log ++ text)),
    length-last_chars (log ++ text),
  )

  row_ok-append :
      row_ok r ≡ true
      → row_ok (append_tail cap text r) ≡ leb (byte_length (log ++ text)) text_max_bytes
  unfolding append_tail row_ok
  row_ok-append valid = ground (arith, valid, tail_fits-append)

  -- What is stored where it fits.
  append-whole :
      leb (byte_length (log ++ text)) text_max_bytes ≡ true
      → append_tail cap text r ≡ record r { script_log_tail_text = some (log ++ text) }
  unfolding append_tail
  append-whole fits = ground (arith, same, fits, length-byte_length (log ++ text))

-- The one row with the key stores the text `log`, whole, in a table that the database takes.
pub record Stored (n : ℕ) (log : Text) (s : Session) : Type 0 where
  pub valid : every row_ok s.reservations ≡ true
  pub before : List Reservation
  pub after : List Reservation
  pub row : Reservation
  pub table : s.reservations ≡ before ++ row ∷ after
  pub key : row.id ≡ n
  pub alone_before : Without row.id before
  pub alone_after : Without row.id after
  pub text : or_else [] row.script_log_tail_text ≡ log
  pub whole : row.script_log_tail_truncated ≡ false

abbrev push_of : ℕ → Text → Operation
push_of n text = Operation.script_output (record { reservation_id = n; text = text })

module _ (n : ℕ) (log : Text) (s : Session) (st : Stored n log s) where
  found : find n s.reservations ≡ some st.row
  found =
      ap (λ m. find m s.reservations) (sym st.key)
      ∙ (ap (find st.row.id) st.table
          ∙ find-one st.row.id st.before st.after st.alone_before st.alone_after st.row refl)

  updated :
      (text : Text)
      → update st.row.id (append_tail cap text) s.reservations
        ≡ st.before ++ append_tail cap text st.row ∷ st.after
  updated text =
      ap (update st.row.id (append_tail cap text)) st.table
      ∙ update-one st.row.id st.before st.after st.alone_before st.alone_after
          (append_tail cap text) st.row refl

  valid_parts :
      (every row_ok st.before ≡ true) × (row_ok st.row ≡ true) × (every row_ok st.after ≡ true)
  valid_parts = ground (
    arith,
    sym (ap (every row_ok) st.table) ∙ st.valid,
    every-append row_ok st.before (st.row ∷ st.after),
  )

  updated-row_ok :
      (text : Text)
      → every row_ok (update st.row.id (append_tail cap text) s.reservations)
        ≡ leb (byte_length (log ++ text)) text_max_bytes
  updated-row_ok text =
      ap (every row_ok) (updated text)
      ∙ ground (
        arith,
        every-append row_ok st.before (append_tail cap text st.row ∷ st.after),
        valid_parts,
        row_ok-append log text st.row st.text,
      )

  -- The table after a push of a chunk that is not empty.
  push-table :
      (text : Text)
      → is_empty text ≡ false
      → (perform (push_of n text) s).reservations ≡ (
          if leb (byte_length (log ++ text)) text_max_bytes
          then st.before ++ append_tail cap text st.row ∷ st.after
          else s.reservations)
  unfolding perform on_push settle_push commit on_script_output_chunk chunk_row
      append_script_log_tail flush
  push-table text full = ground (arith, found, full, updated-row_ok text, updated text)

  empty-table : (perform (push_of n []) s).reservations ≡ s.reservations
  unfolding perform on_push settle_push commit on_script_output_chunk chunk_row
      append_script_log_tail flush
  empty-table = ground (arith, found, st.valid)

  -- A table that is as it was.
  same-Stored : (s' : Session) → s'.reservations ≡ s.reservations → Stored n log s'
  same-Stored s' e = record {
    valid = ap (every row_ok) e ∙ st.valid;
    before = st.before;
    after = st.after;
    row = st.row;
    table = e ∙ st.table;
    key = st.key;
    alone_before = st.alone_before;
    alone_after = st.alone_after;
    text = st.text;
    whole = st.whole;
  }

  grown-Stored :
      (text : Text) (s' : Session)
      → s'.reservations ≡ st.before ++ append_tail cap text st.row ∷ st.after
      → leb (byte_length (log ++ text)) text_max_bytes ≡ true
      → Stored n (log ++ text) s'
  grown-Stored text s' e fits = record {
    valid =
        ap (every row_ok) e
        ∙ (sym (ap (every row_ok) (updated text)) ∙ (updated-row_ok text ∙ fits));
    before = st.before;
    after = st.after;
    row = record st.row { script_log_tail_text = some (log ++ text) };
    table =
        e
        ∙ ap (λ (r : Reservation). st.before ++ r ∷ st.after)
            (append-whole log text st.row st.text fits);
    key = st.key;
    alone_before = st.alone_before;
    alone_after = st.alone_after;
    text = refl;
    whole = st.whole;
  }

-- The text with a chunk more, unless it is more than its column takes.
abbrev pub taken : Text → Text → Text
taken log text = if leb (byte_length (log ++ text)) text_max_bytes then log ++ text else log

push-Stored :
    (n : ℕ) (log text : Text) (s : Session)
    → Stored n log s
    → Stored n (taken log text) (perform (push_of n text) s)
push-Stored n log [] s st =
    subst (λ l. Stored n l (perform (push_of n []) s)) unchanged
      (same-Stored n log s st (perform (push_of n []) s) (empty-table n log s st))
  where
    unchanged : log ≡ taken log []
    unchanged = ground (arith, append-nil log)
push-Stored n log (c ∷ text) s st =
    elim (Bool-cases (leb (byte_length (log ++ c ∷ text)) text_max_bytes)) [
      | inl fits ↦
          subst (λ (b : Bool). Stored n (if b then log ++ c ∷ text else log) after) (sym fits)
            (grown-Stored n log s st (c ∷ text) after
              (table
                ∙ ap
                    (λ (b : Bool).
                      if b
                      then st.before ++ append_tail cap (c ∷ text) st.row ∷ st.after
                      else s.reservations)
                    fits)
              fits)
      | inr over ↦
          subst (λ (b : Bool). Stored n (if b then log ++ c ∷ text else log) after) (sym over)
            (same-Stored n log s st after (
              table
              ∙ ap
                  (λ (b : Bool).
                    if b
                    then st.before ++ append_tail cap (c ∷ text) st.row ∷ st.after
                    else s.reservations)
                  over))
    ]
  where
    after : Session
    after = perform (push_of n (c ∷ text)) s

    table : after.reservations ≡ (
        if leb (byte_length (log ++ c ∷ text)) text_max_bytes
        then st.before ++ append_tail cap (c ∷ text) st.row ∷ st.after
        else s.reservations)
    table = push-table n log s st (c ∷ text) refl

abbrev pub all_taken : Text → List Text → Text
all_taken log [] = log
all_taken log (text ∷ texts) = all_taken (taken log text) texts

abbrev pub pushes_of : ℕ → List Text → List Operation
pushes_of n = map (λ text. Operation.script_output (record { reservation_id = n; text = text }))

-- If the database takes the table, and the one row with the key stores the whole output so far, then
-- after any further chunks have been pushed it stores the output so far with every chunk that
-- does not take it over 65535 UTF-8 bytes; each of the other chunks is lost, and nothing is ever
-- marked as cut.
pub output-Stored :
    (n : ℕ) (texts : List Text) (log : Text) (s : Session)
    → Stored n log s
    → Stored n (all_taken log texts) (run (pushes_of n texts) s)
unfolding run
output-Stored n [] log s st = st
output-Stored n (text ∷ texts) log s st =
    output-Stored n texts (taken log text) (perform (push_of n text) s)
      (push-Stored n log text s st)
