-- ===== src/Scheduler/Loop/Runs.antt =====
-- What such a loop makes of a session.
use core_lab.Prelude.{
  ℕ, ◌≡◌, refl, sym, ap, subst, ◌∙◌, Bool, true, false, Option, none, some, List, [], ◌∷◌, ◌++◌,
  ◌==◌, arith, map, every, some_of, if◌then◌else◌,
}
use core_lab.Data.Row.{Server, Reservation, row_ok}
use core_lab.Data.Error.{Result, ok}
use core_lab.Session.Tables.{Session, find, update}
use core_lab.Session.Exec.{Exec, ◌>>=◌, pure}
use core_lab.Session.Rule.{bind-ok}
use core_lab.Session.Rows.{map_row, find-update, id-find}
use core_lab.Scheduler.Tick.{keys, server_lab_id, lab_of, on_row, for_row, for_rows}
use core_lab.Scheduler.Loop.{
  Round, on_found, waits, passes, distinct, member, every-update, ids-update, distinct-select,
  Ready, keys-Ready, update-Ready,
}

-- The session after an assignment that leaves key and server alone.
module _ (n : ℕ) (g : Reservation → Reservation) (s s' : Session)
    (same_id : (r : Reservation) → (g r).id ≡ r.id)
    (same_server : (r : Reservation) → (g r).server_id ≡ r.server_id)
    (rows : s'.reservations ≡ update n g s.reservations) (servers : s'.servers ≡ s.servers) where
  lab : (k : ℕ) → server_lab_id s' k ≡ server_lab_id s k
  unfolding server_lab_id
  lab k = ground (arith, ap (λ (f : ℕ → Option Server). f k) servers)

  row_at :
      (m : ℕ)
      → find m s'.reservations
        ≡ (if n == m then map_row g (find m s.reservations) else find m s.reservations)
  row_at m = ap (find m) rows ∙ find-update n m g s.reservations (λ r e. same_id r ∙ e)

  waits-kept :
      (q : Reservation → Bool)
      → ((r : Reservation) → find n s.reservations ≡ some r → q (g r) ≡ true → q r ≡ true)
      → (m : ℕ) → waits q s' m ≡ true
      → waits q s m ≡ true
  waits-kept q keep m h =
      go (n == m) (find m s.reservations) refl refl
        (subst (λ o. on_found q s' o ≡ true) (row_at m) h)
    where
      go :
          (b : Bool) (o : Option Reservation)
          → (n == m) ≡ b
          → find m s.reservations ≡ o
          → on_found q s' (if b then map_row g o else o) ≡ true
          → on_found q s o ≡ true
      go b none e k h = ground (arith, h)
      go true (some r) e k h = ground (
        arith,
        h,
        keep r (subst (λ i. find i s.reservations ≡ some r) (sym (ground (arith, e))) k),
        same_server r,
        lab r.server_id,
      )
      go false (some r) e k h = ground (arith, h, lab r.server_id)

  waits-off :
      (q : Reservation → Bool)
      → ((r : Reservation) → find n s.reservations ≡ some r → q (g r) ≡ false)
      → (m : ℕ) → waits q s' m ≡ true
      → (n == m) ≡ false
  waits-off q off m h =
      go (n == m) (find m s.reservations) refl refl
        (subst (λ o. on_found q s' o ≡ true) (row_at m) h)
    where
      go :
          (b : Bool) (o : Option Reservation)
          → (n == m) ≡ b
          → find m s.reservations ≡ o
          → on_found q s' (if b then map_row g o else o) ≡ true
          → b ≡ false
      go false o e k h = refl
      go true none e k h = ground (arith, h)
      go true (some r) e k h = ground (
        arith,
        h,
        off r (subst (λ i. find i s.reservations ≡ some r) (sym (ground (arith, e))) k),
      )

-- What a row, or a loop over the rows that are left, makes of a session.
pub record Ends {A : Type 0} (test : Reservation → Bool)
    (f : Session → Reservation → Reservation → Reservation) (left : List ℕ) (s : Session)
    (r : Result (List A) × Session) : Type 0 where
  pub result : (a : List A) × (r.0 ≡ ok a)
  pub rows_ok : every row_ok r.1.reservations ≡ true
  pub servers : r.1.servers ≡ s.servers
  pub ids : map (λ x. x.id) r.1.reservations ≡ map (λ x. x.id) s.reservations
  pub gone :
      ((s : Session) (row : Reservation) → test row ≡ true → test (f s row row) ≡ false)
      → (m : ℕ) → waits test r.1 m ≡ true
      → (waits test s m ≡ true) × (some_of (λ k. k == m) left ≡ false)
  pub kept :
      (q : Reservation → Bool)
      → ((s : Session) (row : Reservation)
          → test row ≡ true
          → q (f s row row) ≡ true
          → q row ≡ true)
      → (m : ℕ) → waits q r.1 m ≡ true
      → waits q s m ≡ true

abbrev pub NoBad : (Reservation → Bool) → Session → Type 0
NoBad bad s = (m : ℕ) → waits bad s m ≡ false

module _ {A : Type 0} (test bad : Reservation → Bool)
    (f : Session → Reservation → Reservation → Reservation) (body : Reservation → ℕ → Exec (List A))
    (round : Round test bad f body) where
  abbrev After : ℕ → Session → List ℕ → Result (List A) × Session → Type 0
  After n s ns r = Ends {A = A} test f (n ∷ []) s r × Ready test r.1.reservations ns

  -- No row becomes bad.
  pub NoBad-kept :
      (s s' : Session)
      → ((q : Reservation → Bool)
          → ((s : Session) (row : Reservation)
              → test row ≡ true
              → q (f s row row) ≡ true
              → q row ≡ true)
          → (m : ℕ) → waits q s' m ≡ true
          → waits q s m ≡ true)
      → NoBad bad s
      → NoBad bad s'
  NoBad-kept s s' kept well m = go (waits bad s' m) refl (kept bad round.not_bad m)
    where
      go :
          (b : Bool)
          → waits bad s' m ≡ b
          → (waits bad s' m ≡ true → waits bad s m ≡ true)
          → waits bad s' m ≡ false
      go false e k = e
      go true e k = ground (arith, k e, well m)

  changed-After :
      (n : ℕ) (s : Session) (ns : List ℕ) (row : Reservation) (lab_id : ℕ)
      → find n s.reservations ≡ some row
      → test row ≡ true
      → bad row ≡ false
      → every row_ok s.reservations ≡ true
      → some_of (λ k. k == n) ns ≡ false
      → Ready test s.reservations ns
      → After n s ns (body row lab_id s)
  changed-After n s ns row lab_id e h well fine apart ready = (
    record {
      result = round.returns row lab_id s h well still_ok;
      rows_ok = subst (λ rows. every row_ok rows ≡ true) (sym table.0) still_ok;
      servers = table.1;
      ids = ap (map (λ x. x.id)) table.0 ∙ ids-update row.id (f s row) s.reservations same_id;
      gone = λ off m k. (
        waits-kept row.id (f s row) s next same_id same_server table.0 table.1 test
            (λ r y z. ground (arith, same_row r y, h)) m k,
        ground (
          arith,
          same_key,
          waits-off row.id (f s row) s next same_id same_server table.0 table.1 test
              (λ r y. subst (λ x. test (f s row x) ≡ false) (sym (same_row r y)) (off s row h)) m k,
        ),
      );
      kept = λ q keep m k.
          waits-kept row.id (f s row) s next same_id same_server table.0 table.1 q
            (λ r y.
              subst (λ x. q (f s row x) ≡ true → q x ≡ true) (sym (same_row r y)) (keep s row h))
            m k;
    },
    subst (λ rows. Ready test rows ns) (sym table.0)
        (update-Ready test row.id (f s row) s.reservations ns same_id
          (subst (λ i. some_of (λ k. k == i) ns ≡ false) (sym same_key) apart) ready),
  )
    where
      next : Session
      next = (body row lab_id s).1

      same_key : row.id ≡ n
      same_key = id-find n s.reservations row e

      same_row : (r : Reservation) → find row.id s.reservations ≡ some r → r ≡ row
      same_row r y =
          ground (arith, y, subst (λ i. find i s.reservations ≡ some row) (sym same_key) e)

      same_id : (r : Reservation) → (f s row r).id ≡ r.id
      same_id = round.same_id s row

      same_server : (r : Reservation) → (f s row r).server_id ≡ r.server_id
      same_server = round.same_server s row

      still_ok : every row_ok (update row.id (f s row) s.reservations) ≡ true
      still_ok = every-update row.id (f s row) s.reservations (round.same_ok s row) fine

      table :
          ((body row lab_id s).1.reservations ≡ update row.id (f s row) s.reservations)
          × ((body row lab_id s).1.servers ≡ s.servers)
      table = round.table row lab_id s h well still_ok

  for_row-After :
      (n : ℕ) (s : Session) (ns : List ℕ)
      → passes test (find n s.reservations) ≡ true
      → NoBad bad s
      → every row_ok s.reservations ≡ true
      → some_of (λ k. k == n) ns ≡ false
      → Ready test s.reservations ns
      → After n s ns (for_row body n s)
  unfolding for_row
  for_row-After n s ns passed well fine apart ready = found (find n s.reservations) refl passed
    where
      known :
          (row : Reservation) (lab_id : Option ℕ)
          → find n s.reservations ≡ some row
          → server_lab_id s row.server_id ≡ lab_id
          → test row ≡ true
          → After n s ns (on_row body (some row) lab_id s)
      known row none e at h = (
        record {
          result = ([], refl);
          rows_ok = fine;
          servers = refl;
          ids = refl;
          gone = λ off m k. (k, ground (arith, e, at, k));
          kept = λ q keep m k. k;
        },
        ready,
      )
      known row (some lab_id) e at h =
          changed-After n s ns row lab_id e h (ground (arith, e, at, well n)) fine apart ready

      found :
          (o : Option Reservation)
          → find n s.reservations ≡ o
          → passes test o ≡ true
          → After n s ns (on_row body o (lab_of s o) s)
      found none e h = ground (arith, h)
      found (some row) e h = known row (server_lab_id s row.server_id) e refl h

  for_rows-Ends :
      (ns : List ℕ) (s : Session)
      → distinct ns ≡ true
      → NoBad bad s
      → every row_ok s.reservations ≡ true
      → Ready test s.reservations ns
      → Ends test f ns s (for_rows body ns s)
  unfolding for_rows
  for_rows-Ends [] s apart well fine ready = record {
    result = ([], refl);
    rows_ok = fine;
    servers = refl;
    ids = refl;
    gone = λ off m k. (k, refl);
    kept = λ q keep m k. k;
  }
  for_rows-Ends (n ∷ ns) s apart well fine ready =
      let (first, ready') =
        for_row-After n s ns ready.0 well fine (ground (arith, apart)) ready.1 in
      joined first (
        for_rows-Ends ns (for_row body n s).1 (ground (arith, apart))
          (NoBad-kept s mid first.kept well) first.rows_ok ready')
    where
      mid : Session
      mid = (for_row body n s).1

      joined :
          Ends test f (n ∷ []) s (for_row body n s)
          → Ends test f ns mid (for_rows body ns mid)
          → Ends test f (n ∷ ns) s (for_rows body (n ∷ ns) s)
      joined first rest = subst (Ends test f (n ∷ ns) s) (sym whole) (record {
        result = (first.result.0 ++ rest.result.0, refl);
        rows_ok = rest.rows_ok;
        servers = rest.servers ∙ first.servers;
        ids = rest.ids ∙ first.ids;
        gone = λ off m k.
            let (mid_waits, not_in) = rest.gone off m k in
            let (waits_, other) = first.gone off m mid_waits in
            (waits_, ground (arith, not_in, other));
        kept = λ q keep m k. first.kept q keep m (rest.kept q keep m k);
      })
        where
          whole :
              for_rows body (n ∷ ns) s
              ≡ (ok (first.result.0 ++ rest.result.0), (for_rows body ns mid).1)
          whole =
              bind-ok (for_row body n) (λ here. do rest ← for_rows body ns; pure (here ++ rest)) s
                mid first.result.0 (ap (λ r. (r, mid)) first.result.1)
              ∙ bind-ok (for_rows body ns) (λ rest. pure (first.result.0 ++ rest)) mid
                  (for_rows body ns mid).1 rest.result.0
                  (ap (λ r. (r, (for_rows body ns mid).1)) rest.result.1)

-- The loop over all rows of a test, from a table with distinct keys that meets its constraints.
pub all-Ends :
    {A : Type 0} (test bad : Reservation → Bool)
    (f : Session → Reservation → Reservation → Reservation) (body : Reservation → ℕ → Exec (List A))
    (s : Session)
    → Round test bad f body
    → distinct (map (λ r. r.id) s.reservations) ≡ true
    → NoBad bad s
    → every row_ok s.reservations ≡ true
    → Ends test f (keys test s) s (for_rows body (keys test s) s)
all-Ends test bad f body s round apart well fine =
    for_rows-Ends test bad f body round (keys test s) s (distinct-select test s.reservations apart)
      well fine (keys-Ready test s.reservations apart)

-- Where the rounds take their row out of the test, no row is left that it waits for.
pub none-waits :
    {A : Type 0} (test : Reservation → Bool) (f : Session → Reservation → Reservation → Reservation)
    (s : Session) (r : Result (List A) × Session)
    → Ends test f (keys test s) s r
    → ((s : Session) (row : Reservation) → test row ≡ true → test (f s row row) ≡ false)
    → (m : ℕ) → waits test r.1 m ≡ false
none-waits test f s r ends off m = none_left (waits test r.1 m) refl
  where
    passed : waits test s m ≡ true → passes test (find m s.reservations) ≡ true
    passed h = go (find m s.reservations) h
      where
        go : (o : Option Reservation) → on_found test s o ≡ true → passes test o ≡ true
        go none h = h
        go (some r) h = ground (arith, h)

    none_left : (b : Bool) → waits test r.1 m ≡ b → waits test r.1 m ≡ false
    none_left false h = h
    none_left true h =
        let (before, not_in) = ends.gone off m h in
        ground (arith, not_in, member test m s.reservations (passed before))
