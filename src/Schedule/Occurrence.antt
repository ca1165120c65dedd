-- ===== src/Schedule/Occurrence.antt =====
-- agent_core/scheduler.py: when a schedule runs next, and what it has missed.
pub mod First
pub mod Bounds
pub mod Backwards
use nosis.Base.{
  ℕ, zero, suc, ◌+◌, ◌-◌, ◌*◌, ◌/◌, ◌%◌, String, Bool, true, false, Option, none, some, ◌==◌, ◌&&◌,
  ltb, leb, if◌then◌else◌, Result, returned, raised, ◌>>=◌,
}
use nosis.Base.Json.{PyError, value_error}
use nosis.Schedule.Trigger.{Trigger, once, cron, interval, Schedule, Library, is_known_zone}
use nosis.Schedule.Cron.{LocalTime, cron_matches}

-- Microseconds.
abbrev pub second : ℕ
second = 1_000_000

abbrev pub minute : ℕ
minute = 60_000_000

-- The time zones of `zoneinfo`, but for UTC, and the Gregorian calendar. Wall-clock minutes count from
-- 0001-01-01 00:00, a Monday, and so do times. `instant` is the first of the times that a zone's clock
-- shows that minute, as `astimezone` has it for `fold=0`, which adding a `timedelta` leaves; the record
-- IsFirstInstant of Backwards is this law.
pub record Calendar : Type 0 where
  pub wall : String → ℕ → ℕ
  pub instant : String → ℕ → ℕ
  pub day_of_month : ℕ → ℕ
  pub month : ℕ → ℕ

-- The rounds of the loop over minutes.
unfoldable pub search_minutes : ℕ
search_minutes = 60 * 24 * 370

module _ (cal : Calendar) where
  -- `after.astimezone(zone)`, without its seconds
  unfoldable pub wall_minute : String → ℕ → ℕ
  wall_minute zone t = if zone == "UTC" then t / minute else cal.wall zone t

  unfoldable pub instant_of : String → ℕ → ℕ
  instant_of zone n = if zone == "UTC" then n * minute else cal.instant zone n

  unfoldable pub local_time : ℕ → LocalTime
  local_time n =
      let date = n / 1440 in
      record {
        minute = n % 60;
        hour = n / 60 % 24;
        day = cal.day_of_month date;
        month = cal.month date;
        weekday = date % 7;
      }

  -- The loop: the first minute from the cursor on that matches.
  unfoldable pub first_match : (rounds : ℕ) → String → ℕ → Result PyError (Option ℕ)
  first_match zero expression cursor = returned none
  first_match (suc rounds) expression cursor = elim (cron_matches expression (local_time cursor)) [
    | raised e ↦ raised e
    | returned true ↦ returned (some cursor)
    | returned false ↦ first_match rounds expression (cursor + 1)
  ]

  abbrev instant_if : String → Option ℕ → Option ℕ
  instant_if zone none = none
  instant_if zone (some n) = some (instant_of zone n)

-- The candidate of an interval.
unfoldable pub interval_candidate : ℕ → ℕ → ℕ → ℕ
interval_candidate delta start after =
    if leb start after then start + ((after - start) / delta + 1) * delta else start

abbrev or_else : Option ℕ → ℕ → ℕ
or_else none t = t
or_else (some s) t = s

-- `end_at is not None and candidate > end_at` makes it none.
unfoldable pub until_end : Option ℕ → Option ℕ → Option ℕ
until_end end_at none = none
until_end none (some c) = some c
until_end (some last) (some c) = if ltb last c then none else some c

module _ (lib : Library) (cal : Calendar) where
  unfoldable pub candidate : Trigger → ℕ → Result PyError (Option ℕ)
  candidate (once at) after = returned (if ltb after at then some at else none)
  candidate (interval seconds start_at) after =
      let delta = seconds * second in
      returned (some (interval_candidate delta (or_else start_at (after + delta)) after))
  candidate (cron expression zone) after =
      if is_known_zone lib zone
      then (first_match cal search_minutes expression (wall_minute cal zone after + 1) >>= λ found.
          returned (instant_if cal zone found))
      else raised (value_error "unknown IANA timezone")

  -- `_next_occurrence`
  unfoldable pub next_occurrence : Trigger → Option ℕ → ℕ → Result PyError (Option ℕ)
  next_occurrence trigger end_at after = do
    c ← candidate trigger after
    returned (until_end end_at c)

-- `_missed`: why the occurrence is not run. The comparisons are those of the code with the
-- subtracted time on the other side, which does not stop at 0.
unfoldable pub missed : Trigger → ℕ → ℕ → Option String
missed (once at) scheduled_for now = none
missed (cron expression zone) scheduled_for now =
    if ltb (scheduled_for + minute) now then some "missed cron occurrence" else none
missed (interval seconds start_at) scheduled_for now =
    if ltb (scheduled_for + seconds * second + 100_000) now
    then some "missed interval occurrence"
    else none

-- `_next_after_missed_interval`; the poll calls it for an occurrence that is not in the future.
unfoldable pub next_after_missed_interval : ℕ → ℕ → ℕ → ℕ
next_after_missed_interval seconds scheduled_for now =
    let delta = seconds * second in scheduled_for + ((now - scheduled_for) / delta + 1) * delta
