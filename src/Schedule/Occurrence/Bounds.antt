-- ===== src/Schedule/Occurrence/Bounds.antt =====
-- agent_core/scheduler.py: the next occurrence lies after the given time and not after the end.
use nosis.Base.{
  ℕ, ◌+◌, ◌-◌, ◌*◌, ◌/◌, ◌%◌, ◌≤◌, ◌<◌, ◌≡◌, refl, arith, String, Option, none, some, ◌==◌, ltb,
  leb, leb→le, ltb→lt, sym, Bool-cases, inl, inr, Result, returned, raised, ◌>>=◌,
}
use native.Mathlib.Nat.{mod-add-div', mod-lt}
use nosis.Base.Json.{PyError}
use nosis.Schedule.Trigger.{Trigger, once, cron, interval, Library, is_known_zone}
use nosis.Schedule.Occurrence.First.{first_match-IsFirstMatch}
use nosis.Schedule.Occurrence.{
  Calendar, second, wall_minute, instant_of, first_match, instant_if, interval_candidate, or_else,
  until_end, candidate, next_occurrence, search_minutes,
}

pub next_period :
    (gap delta : ℕ)
    → 0 < delta
    → (gap < (gap / delta + 1) * delta) × ((gap / delta + 1) * delta ≤ gap + delta)
next_period gap delta h =
    let split : gap % delta + gap / delta * delta ≡ gap = mod-add-div' gap delta in
    let small : gap % delta < delta = mod-lt gap h in
    let more : (gap / delta + 1) * delta ≡ gap / delta * delta + delta = grind arith in
    omega (arith, split, small, more)

-- An interval's candidate lies after the given time, by at most one period if the interval has
-- started.
interval_candidate_bounds :
    (delta start after : ℕ)
    → 0 < delta
    → (after < interval_candidate delta start after)
      × (start ≤ after → interval_candidate delta start after ≤ after + delta)
unfolding interval_candidate
interval_candidate_bounds delta start after h = elim (Bool-cases (leb start after)) [
  | inl past ↦ rw past (
    omega (arith, next_period (after - start) delta h, leb→le start after past),
    λ s. omega (arith, next_period (after - start) delta h, s),
  )
  | inr future ↦ rw future (ground (arith, future), λ s. absurd (ground (arith, future, s)))
]

-- A zone's clock that was never set back: a later minute of it is a later time.
abbrev pub IsSteady : Calendar → String → Type 0
IsSteady cal zone = (t n : ℕ) → cal.wall zone t < n → t < cal.instant zone n

instant_of-after :
    (cal : Calendar) (zone : String) (t n : ℕ)
    → IsSteady cal zone
    → wall_minute cal zone t < n
    → t < instant_of cal zone n
unfolding wall_minute instant_of
instant_of-after cal zone t n h k = elim (Bool-cases (zone == "UTC")) [
  | inl utc ↦ rw utc (omega (arith, rw utc at k))
  | inr other ↦ rw other (h t n (rw other at k))
]

-- What an occurrence needs: a period that is not 0, a clock that was not set back.
abbrev pub IsRegular : Calendar → Trigger → Type 0
IsRegular cal (once at) = Unit
IsRegular cal (cron expression zone) = IsSteady cal zone
IsRegular cal (interval seconds start_at) = 0 < seconds

abbrev pub IsAfter : ℕ → Option ℕ → Type 0
IsAfter after none = Unit
IsAfter after (some c) = after < c

abbrev IsAfterIfReturned : ℕ → Result PyError (Option ℕ) → Type 0
IsAfterIfReturned after (raised e) = Unit
IsAfterIfReturned after (returned o) = IsAfter after o

found_after :
    (cal : Calendar) (expression zone : String) (after : ℕ) (r : Result PyError (Option ℕ))
    → IsSteady cal zone
    → r ≡ first_match cal search_minutes expression (wall_minute cal zone after + 1)
    → IsAfterIfReturned after (r >>= λ found. returned (instant_if cal zone found))
found_after cal expression zone after (raised e) h q = tt
found_after cal expression zone after (returned none) h q = tt
found_after cal expression zone after (returned (some n)) h q =
    let first =
      first_match-IsFirstMatch cal expression search_minutes (wall_minute cal zone after + 1)
        (some n) (sym q) in
    instant_of-after cal zone after n h (omega (arith, first.0))

candidate-IsAfter :
    (lib : Library) (cal : Calendar) (trigger : Trigger) (after : ℕ)
    → IsRegular cal trigger
    → IsAfterIfReturned after (candidate lib cal trigger after)
unfolding candidate
candidate-IsAfter lib cal (once at) after h = elim (Bool-cases (ltb after at)) [
  | inl later ↦ rw later (ltb→lt after at later)
  | inr past ↦ rw past tt
]
candidate-IsAfter lib cal (interval seconds start_at) after h =
    (interval_candidate_bounds (seconds * second) (or_else start_at (after + seconds * second))
      after (omega (arith, h))).0
candidate-IsAfter lib cal (cron expression zone) after h =
    elim (Bool-cases (is_known_zone lib zone)) [
      | inl known ↦ rw known (found_after cal expression zone after _ h refl)
      | inr unknown ↦ rw unknown tt
    ]

abbrev pub IsUntil : Option ℕ → ℕ → Type 0
IsUntil none c = Unit
IsUntil (some last) c = c ≤ last

pub until_end-bounds :
    (end_at : Option ℕ) (after c : ℕ) (o : Option ℕ)
    → IsAfter after o
    → until_end end_at o ≡ some c
    → (after < c) × IsUntil end_at c
unfolding until_end
until_end-bounds end_at after c none h q = absurd (ground arith)
until_end-bounds none after c (some d) h q = ground arith
until_end-bounds (some last) after c (some d) h q = ground arith

returned_bounds :
    (end_at : Option ℕ) (after c : ℕ) (r : Result PyError (Option ℕ))
    → IsAfterIfReturned after r
    → (r >>= λ o. returned (until_end end_at o)) ≡ returned (some c)
    → (after < c) × IsUntil end_at c
returned_bounds end_at after c (raised e) h q = absurd (ground arith)
returned_bounds end_at after c (returned o) h q = until_end-bounds end_at after c o h (ground arith)

-- If the period of an interval is not 0 and the clock of the cron's zone was never set back, then a
-- schedule's next occurrence lies after the given time and not after the schedule's end.
pub next_occurrence-bounds :
    (lib : Library) (cal : Calendar) (trigger : Trigger) (end_at : Option ℕ) (after c : ℕ)
    → IsRegular cal trigger
    → next_occurrence lib cal trigger end_at after ≡ returned (some c)
    → (after < c) × IsUntil end_at c
unfolding next_occurrence
next_occurrence-bounds lib cal trigger end_at after c h q =
    returned_bounds end_at after c (candidate lib cal trigger after)
      (candidate-IsAfter lib cal trigger after h) q
