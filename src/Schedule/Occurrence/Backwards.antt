-- ===== src/Schedule/Occurrence/Backwards.antt =====
-- agent_core/scheduler.py: a cron trigger in the hour that a zone's clock shows a second time.
use nosis.Base.{
  ℕ, suc, ◌+◌, ◌≤◌, ◌≡◌, ◌/◌, ◌%◌, ge→leb, refl, arith, ◌∙◌, sym, ap, String, true, false, none,
  some, ◌==◌, returned,
}
use nosis.Base.Texts.{is_space}
use nosis.Schedule.Cron.{cron_matches, fields_match, field_allows, token_allows, split_by}
use nosis.Schedule.Trigger.{cron, Library, is_known_zone}
use nosis.Schedule.Occurrence.{
  Calendar, wall_minute, instant_of, local_time, first_match, candidate, next_occurrence, until_end,
  search_minutes,
}

-- The calendar's days and months are numbers of a date.
abbrev pub HasDates : Calendar → Type 0
HasDates cal =
    (n : ℕ)
    → (1 ≤ cal.day_of_month n) × (cal.day_of_month n ≤ 31) × (1 ≤ cal.month n) × (cal.month n ≤ 12)

abbrev every_minute : String
every_minute = "* * * * *"

every_minute_matches :
    (cal : Calendar) (n : ℕ)
    → HasDates cal
    → cron_matches every_minute (local_time cal n) ≡ returned true
unfolding cron_matches fields_match field_allows token_allows split_by is_space local_time
every_minute_matches cal n dates =
    rw
      (
        ge→leb 0 (n % 60) (omega arith),
        ge→leb (n % 60) 59 (omega arith),
        ge→leb 0 (n / 60 % 24) (omega arith),
        ge→leb (n / 60 % 24) 23 (omega arith),
        ge→leb 1 (cal.day_of_month (n / 1440)) (dates (n / 1440)).0,
        ge→leb (cal.day_of_month (n / 1440)) 31 (dates (n / 1440)).1,
        ge→leb 1 (cal.month (n / 1440)) (dates (n / 1440)).2,
        ge→leb (cal.month (n / 1440)) 12 (dates (n / 1440)).3,
        ge→leb 0 ((n / 1440 % 7 + 1) % 7) (omega arith),
        ge→leb ((n / 1440 % 7 + 1) % 7) 6 (omega arith),
      )
      refl

matched_at_once :
    (cal : Calendar) (rounds cursor : ℕ)
    → HasDates cal
    → first_match cal (suc rounds) every_minute cursor ≡ returned (some cursor)
unfolding first_match
matched_at_once cal rounds cursor dates =
    rw (first_match, every_minute_matches cal cursor dates) refl

-- `instant` gives the first of the times at which the zone's clock shows a minute, if it shows it.
pub record IsFirstInstant (cal : Calendar) (zone : String) : Type 0 where
  pub shown : (t : ℕ) → cal.wall zone (cal.instant zone (cal.wall zone t)) ≡ cal.wall zone t
  pub first : (t : ℕ) → cal.instant zone (cal.wall zone t) ≤ t

every_minute-next :
    (lib : Library) (cal : Calendar) (zone : String) (after : ℕ)
    → HasDates cal
    → (zone == "UTC") ≡ false
    → is_known_zone lib zone ≡ true
    → next_occurrence lib cal (cron "* * * * *" zone) none after
      ≡ returned (some (cal.instant zone (cal.wall zone after + 1)))
unfolding next_occurrence candidate wall_minute instant_of until_end
every_minute-next lib cal zone after dates h k =
    let rounds : search_minutes ≡ suc 532_799 = unfold search_minutes in refl in
    rw (k, rounds, matched_at_once cal 532_799 (wall_minute cal zone after + 1) dates)
      (unfold wall_minute in rw h refl)

-- If the clock of a known zone other than UTC showed the minute after that of `after` at a time before
-- `after` or at it (it was set back since), then the next occurrence of an every-minute cron trigger is
-- a time at which the clock shows that minute and which is not after `after`. An instant is the first
-- of the times at which the zone's clock shows a minute.
pub next_occurrence-backwards :
    (lib : Library) (cal : Calendar) (zone : String) (after earlier : ℕ)
    → HasDates cal
    → IsFirstInstant cal zone
    → (zone == "UTC") ≡ false
    → is_known_zone lib zone ≡ true
    → cal.wall zone earlier ≡ cal.wall zone after + 1
    → earlier ≤ after
    → (c : ℕ) × (next_occurrence lib cal (cron "* * * * *" zone) none after ≡ returned (some c))
      × (c ≤ after)
      × (cal.wall zone c ≡ cal.wall zone after + 1)
next_occurrence-backwards lib cal zone after earlier dates law h k e q =
    let same : cal.instant zone (cal.wall zone earlier)
        ≡ cal.instant zone (cal.wall zone after + 1) =
      ap (cal.instant zone) e in
    (
      cal.instant zone (cal.wall zone after + 1),
      every_minute-next lib cal zone after dates h k,
      omega (arith, law.first earlier, same, q),
      ap (cal.wall zone) (sym same) ∙ law.shown earlier ∙ e,
    )
