-- ===== src/Lifecycle/Moves.antt =====
-- The state machines as relations, and tables whose rows only follow them.
use core_lab.Prelude.{
  ℕ, ◌≡◌, refl, ap, subst, ◌∙◌, sym, inl, inr, true, Option, some, List, arith, ◌==◌, Bool-cases,
  ==_iff,
}
use core_lab.Data.Status.{
  Status, ScriptStatus, status_in, script_in, allowed_transitions, allowed_script_transitions,
  terminal_statuses,
}
use core_lab.Data.Row.{Reservation}
use core_lab.Session.Tables.{find, update}
use core_lab.Session.Rows.{KeepsId, find-update}

-- A walk along the edges of the transition table.
pub data Leads (a : Status) : Status → Type 0 where
  here : Leads a a
  next :
      {b : Status} (c : Status) → Leads a b → status_in c (allowed_transitions b) ≡ true → Leads a c

pub data LeadsScript (a : Option ScriptStatus) : Option ScriptStatus → Type 0 where
  here : LeadsScript a a
  next :
      {b : Option ScriptStatus} (c : ScriptStatus)
      → LeadsScript a b
      → script_in c (allowed_script_transitions b) ≡ true
      → LeadsScript a (some c)

pub Leads-trans : {a b c : Status} → Leads a b → Leads b c → Leads a c
Leads-trans p Leads.here = p
Leads-trans p (Leads.next c q e) = Leads.next c (Leads-trans p q) e

pub LeadsScript-trans :
    {a b c : Option ScriptStatus} → LeadsScript a b → LeadsScript b c → LeadsScript a c
LeadsScript-trans p LeadsScript.here = p
LeadsScript-trans p (LeadsScript.next c q e) = LeadsScript.next c (LeadsScript-trans p q) e

-- A row follows its state machines to another version of itself.
pub record Follows (r r' : Reservation) : Type 0 where
  pub status : Leads r.status r'.status
  pub script : LeadsScript r.script_status r'.script_status

pub Follows-refl : (r : Reservation) → Follows r r
Follows-refl r = record { status = Leads.here; script = LeadsScript.here }

pub Follows-same :
    (r r' : Reservation) → r'.status ≡ r.status → r'.script_status ≡ r.script_status → Follows r r'
Follows-same r r' p q = record {
  status = subst (Leads r.status) (sym p) Leads.here;
  script = subst (LeadsScript r.script_status) (sym q) LeadsScript.here;
}

pub Follows-trans : (a b c : Reservation) → Follows a b → Follows b c → Follows a c
Follows-trans a b c p q = record {
  status = Leads-trans p.status q.status;
  script = LeadsScript-trans p.script q.script;
}

-- Every row of the first table is in the second, where its state machines lead.
pub record Moves (rows rows' : List Reservation) : Type 0 where
  pub at :
      (n : ℕ) (r : Reservation)
      → find n rows ≡ some r
      → (r' : Reservation) × (find n rows' ≡ some r') × Follows r r'

pub Moves-refl : (rows : List Reservation) → Moves rows rows
Moves-refl rows = record { at = λ n r h. (r, h, Follows-refl r) }

pub Moves-trans : {a b c : List Reservation} → Moves a b → Moves b c → Moves a c
Moves-trans p q = record {
  at = λ n r h.
      let (r', h', f) = p.at n r h in
      let (r'', h'', g) = q.at n r' h' in (r'', h'', Follows-trans r r' r'' f g);
}

-- An assignment that follows the state machines from the row as it is found.
pub Moves-update :
    (n : ℕ) (f : Reservation → Reservation) (rows : List Reservation)
    → KeepsId n f
    → ((r : Reservation) → find n rows ≡ some r → Follows r (f r))
    → Moves rows (update n f rows)
Moves-update n f rows keep step = record {
  at = λ m r h. elim (Bool-cases (n == m)) [
    | inl same ↦ (
      f r,
      ground (arith, find-update n m f rows keep),
      step r (ap (λ k. find k rows) ((==_iff n m).0 same) ∙ h),
    )
    | inr other ↦ (r, ground (arith, find-update n m f rows keep), Follows-refl r)
  ];
}

-- A terminal status leads nowhere else.
pub Leads-terminal : {a b : Status} → Leads a b → status_in a terminal_statuses ≡ true → b ≡ a
Leads-terminal Leads.here h = refl
Leads-terminal {a} (Leads.next {b = b} c p e) h = ground (arith, Leads-terminal p h)
