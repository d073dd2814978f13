-- ===== src/Agent/Grace.antt =====
-- `grace_tracker`: how long a violation has been seen before the agent acts on it. The clock is an
-- argument.
use core_lab.Prelude.{
  ℕ, ◌+◌, ◌≤◌, ◌≡◌, refl, ap, Bool, true, false, ◌&&◌, Option, none, some, List, [], ◌∷◌, arith,
  ◌==◌, ==_refl, leb, or_else, All, Bool-cases, inl, inr, if◌then◌else◌,
}
use core_lab.Data.Row.{Text, Instant, seconds}
use core_lab.Data.Strings.{text_eq}
use core_lab.Data.Strings.Equal.{text_eq_refl, text_eq_sound}

pub record Pending : Type 0 where
  pub first_seen : Instant
  pub last_seen : Instant

-- `_key`
pub record Key : Type 0 where
  pub policy_key : Text
  pub server_id : ℕ
  pub gpu_id : Option ℕ
  pub linux_username : Option Text
  pub pid : Option ℕ

abbrev option_eq {ℓ} : {A : Type ℓ} → (A → A → Bool) → Option A → Option A → Bool
option_eq eq none none = true
option_eq eq (some x) (some y) = eq x y
option_eq eq _ _ = false

-- Equality of the tuples.
unfoldable pub key_eq : Key → Key → Bool
key_eq a b =
    (text_eq a.policy_key b.policy_key && a.server_id == b.server_id)
    && (option_eq ◌==◌ a.gpu_id b.gpu_id
        && (option_eq text_eq a.linux_username b.linux_username && option_eq ◌==◌ a.pid b.pid))

-- `_pending`
abbrev pub Tracker : Type 0
Tracker = Key → Option Pending

abbrev pub track : Key → Option Pending → Tracker → Tracker
track key p pending other = if key_eq key other then p else pending other

abbrev pub seen_again :
    Key → (grace : ℕ) → (now : Instant) → Tracker → Option Pending → Bool × Tracker
seen_again key grace now pending none =
    (false, track key (some (record { first_seen = now; last_seen = now })) pending)
seen_again key grace now pending (some p) = (
  leb (p.first_seen + seconds grace) now,
  track key (some (record p { last_seen = now })) pending,
)

-- Whether to act.
unfoldable pub observe :
    Key → (grace_period_seconds : Option ℕ) → (now : Instant) → Tracker → Bool × Tracker
observe key grace_period_seconds now pending =
    if or_else 0 grace_period_seconds == 0
    then (true, pending)
    else seen_again key (or_else 0 grace_period_seconds) now pending (pending key)

unfoldable pub clear : Key → Tracker → Tracker
clear key = track key none

-- What the monitor does: it sees a violation at an instant, or it clears one.
pub data Step : Type 0 where
  saw : (key : Key) (grace_period_seconds : Option ℕ) (now : Instant) → Step
  cleared : (key : Key) → Step

unfoldable pub step : Step → Tracker → Tracker
step (Step.saw key grace now) pending = (observe key grace now pending).1
step (Step.cleared key) pending = clear key pending

unfoldable pub steps : List Step → Tracker → Tracker
steps [] pending = pending
steps (s ∷ rest) pending = steps rest (step s pending)

-- The step does not clear the violation.
abbrev pub Spares : Key → Step → Type 0
Spares key (Step.saw k grace now) = Unit
Spares key (Step.cleared k) = key_eq k key ≡ false

option_eq_refl {ℓ} :
    {A : Type ℓ}
    → (eq : A → A → Bool) → ((x : A) → eq x x ≡ true)
    → (o : Option A) → option_eq eq o o ≡ true
option_eq_refl eq h none = refl
option_eq_refl eq h (some x) = h x

key_eq_refl : (key : Key) → key_eq key key ≡ true
unfolding key_eq
key_eq_refl key = ground (
  arith,
  text_eq_refl key.policy_key,
  ==_refl key.server_id,
  option_eq_refl ◌==◌ ==_refl key.gpu_id,
  option_eq_refl text_eq text_eq_refl key.linux_username,
  option_eq_refl ◌==◌ ==_refl key.pid,
)

option_eq_sound {ℓ} :
    {A : Type ℓ}
    → (eq : A → A → Bool) → ((x y : A) → eq x y ≡ true → x ≡ y)
    → (a b : Option A) → option_eq eq a b ≡ true
    → a ≡ b
option_eq_sound eq h none none k = refl
option_eq_sound eq h none (some y) k = cc
option_eq_sound eq h (some x) none k = cc
option_eq_sound eq h (some x) (some y) k = ap some (h x y k)

number_eq_sound : (x y : ℕ) → (x == y) ≡ true → x ≡ y
number_eq_sound x y h = ground arith

key_eq_sound : (a b : Key) → key_eq a b ≡ true → a ≡ b
unfolding key_eq
key_eq_sound a b h = cc (
  text_eq_sound a.policy_key b.policy_key (ground arith),
  number_eq_sound a.server_id b.server_id (ground arith),
  option_eq_sound ◌==◌ number_eq_sound a.gpu_id b.gpu_id (ground arith),
  option_eq_sound text_eq text_eq_sound a.linux_username b.linux_username (ground arith),
  option_eq_sound ◌==◌ number_eq_sound a.pid b.pid (ground arith),
)

module _ (key : Key) (t : Instant) where
  -- The violation was first seen at the instant.
  abbrev pub Since : Tracker → Type 0
  Since pending = (p : Pending) × (pending key ≡ some p) × (p.first_seen ≡ t)

  seen_again-Since :
      (k : Key) (grace : ℕ) (now : Instant) (pending : Tracker)
      → Since pending
      → Since (seen_again k grace now pending (pending k)).1
  seen_again-Since k grace now pending (p, found, first) = elim (Bool-cases (key_eq k key)) [
    | inl same ↦ (
      record p { last_seen = now },
      ground (arith, same, ap pending (key_eq_sound k key same), found),
      first,
    )
    | inr other ↦ (p, elsewhere (pending k) other, first)
  ]
    where
      elsewhere :
          (o : Option Pending)
          → key_eq k key ≡ false
          → (seen_again k grace now pending o).1 key ≡ some p
      elsewhere none other = ground (arith, other, found)
      elsewhere (some q) other = ground (arith, other, found)

  step-Since :
      (s : Step) (pending : Tracker) → Spares key s → Since pending → Since (step s pending)
  unfolding step observe clear
  step-Since (Step.cleared k) pending spares (p, found, first) =
      (p, ground (arith, spares, found), first)
  step-Since (Step.saw k grace now) pending spares since = go (or_else 0 grace == 0)
    where
      go :
          (b : Bool)
          → Since
              (if b
                then (true, pending)
                else seen_again k (or_else 0 grace) now pending (pending k)).1
      go true = since
      go false = seen_again-Since k (or_else 0 grace) now pending since

  steps-Since :
      (ss : List Step) (pending : Tracker)
      → All (Spares key) ss
      → Since pending
      → Since (steps ss pending)
  unfolding steps
  steps-Since [] pending spares since = since
  steps-Since (s ∷ ss) pending spares since =
      steps-Since ss (step s pending) spares.1 (step-Since s pending spares.0 since)

-- A violation with a grace period, seen when it was not pending, is not acted on; and after any
-- steps that do not clear it, the next time that it is seen it is acted on exactly if the grace period has
-- passed since that first time, whether or not it was seen in between.
pub observe-since :
    (key : Key) (grace : ℕ) (t later : Instant) (ss : List Step) (pending : Tracker)
    → 1 ≤ grace
    → pending key ≡ none
    → All (Spares key) ss
    → ((observe key (some grace) t pending).0 ≡ false)
      × ((observe key (some grace) later (steps ss (observe key (some grace) t pending).1)).0
          ≡ leb (t + seconds grace) later)
unfolding observe
observe-since key grace t later ss pending positive new spares =
    let (p, found, first) =
      steps-Since key t ss (observe key (some grace) t pending).1 spares start in
    (ground (arith, new), ground (arith, found, first))
  where
    start : Since key t (observe key (some grace) t pending).1
    start = (record { first_seen = t; last_seen = t }, ground (arith, new, key_eq_refl key), refl)
