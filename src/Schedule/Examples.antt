-- ===== src/Schedule/Examples.antt =====
-- agent_core/scheduler.py: instances, and the theorems at small inputs.
use nosis.Base.{
  ℕ, suc, ◌+◌, ◌-◌, ◌*◌, ◌/◌, ◌≤◌, ltb, if◌then◌else◌, ◌≡◌, refl, ap, arith, ◌==◌, String, true,
  none, some, returned,
}
use nosis.Base.Texts.{char_count, is_space}
use nosis.Base.Json.{object}
use nosis.Session.Examples.{strokes, char_count-strokes}
use nosis.Schedule.Trigger.{
  Trigger, cron, interval, Schedule, Library, make_cron, make_interval, is_known_zone,
  parse_trigger_input, trigger_to_dict,
}
use nosis.Schedule.Stored.{schedule_from_dict, schedule_to_dict}
use nosis.Schedule.Stored.Back.{ReadsTimes, IsTrigger, schedule_from_dict-schedule_to_dict}
use nosis.Schedule.Input.{parse_trigger_input-trigger_to_dict}
use nosis.Schedule.Cron.{
  cron_matches, fields_match, field_allows, token_allows, span_or_number, split_dash, split_by,
  digits_from, int, in_span, in_steps,
}
use nosis.Schedule.Occurrence.{Calendar, minute, first_match, local_time, next_occurrence}
use nosis.Schedule.Occurrence.First.{IsFirstMatch, first_match-IsFirstMatch}
use nosis.Schedule.Occurrence.Backwards.{next_occurrence-backwards}

abbrev read_strokes : String → ℕ
read_strokes String.[] = 0
read_strokes (String.◌∷◌ c s) = char_count s

-- A time is one stroke more than it counts.
abbrev pub library : Library
library = record {
  isoformat = λ t. strokes (suc t);
  fromisoformat = λ s. returned (some (read_strokes s));
  repr = λ j. "";
  is_zone = λ z. z == "Europe/Berlin";
}

pub library-ReadsTimes : ReadsTimes library
library-ReadsTimes t = (refl, ap (λ n. returned (some n)) (char_count-strokes t))

-- Wall clocks that show UTC, in a calendar of first days of January.
abbrev pub calendar : Calendar
calendar = record {
  wall = λ zone t. t / minute;
  instant = λ zone n. n * minute;
  day_of_month = λ date. 1;
  month = λ date. 1;
}

abbrev pub daily : Schedule
daily = record {
  schedule_id = "s";
  trigger = interval 60 (some 5);
  prompt = "look";
  workspace = "/w";
  origin_session_id = "o";
  schedule_session_id = "t";
  enabled = true;
  end_at = none;
  created_at = 1;
  next_run_at = some 5;
}

daily-IsTrigger : IsTrigger library daily.trigger
unfolding make_interval
daily-IsTrigger = refl

schedule_from_dict-schedule_to_dict_example :
    schedule_from_dict library 7 (schedule_to_dict library daily) ≡ returned daily
schedule_from_dict-schedule_to_dict_example =
    schedule_from_dict-schedule_to_dict library library-ReadsTimes 7 daily daily-IsTrigger

abbrev nightly : Trigger
nightly = cron "0 0 * * *" "Europe/Berlin"

nightly-IsTrigger : IsTrigger library nightly
unfolding make_cron is_known_zone
nightly-IsTrigger = refl

parse_trigger_input-trigger_to_dict_example :
    parse_trigger_input library (object (trigger_to_dict library nightly)) ≡ returned nightly
parse_trigger_input-trigger_to_dict_example =
    parse_trigger_input-trigger_to_dict library nightly library-ReadsTimes nightly-IsTrigger refl

nightly_zone : is_known_zone library "Europe/Berlin" ≡ true
unfolding is_known_zone
nightly_zone = refl

second_minute : first_match calendar 5 "2 * * * *" 0 ≡ returned (some 2)
unfolding first_match local_time cron_matches fields_match field_allows token_allows span_or_number
    split_dash split_by digits_from int in_span in_steps is_space
second_minute = refl

-- A clock that shows the minutes from 5 to 9 a second time.
abbrev set_back : Calendar
set_back = record calendar {
  wall = λ zone t. if ltb (t / minute) 10 then t / minute else t / minute - 5;
  instant = λ zone n. if ltb n 10 then n * minute else (n + 5) * minute;
}

set_back-shown :
    (t : ℕ) → set_back.wall "z" (set_back.instant "z" (set_back.wall "z" t)) ≡ set_back.wall "z" t
set_back-shown t = ground arith

set_back-first : (t : ℕ) → set_back.instant "z" (set_back.wall "z" t) ≤ t
set_back-first t = ground arith

next_occurrence-backwards_example :
    (c : ℕ) × (next_occurrence library set_back (cron "* * * * *" "Europe/Berlin") none 660_000_001
      ≡ returned (some c))
    × (c ≤ 660_000_001)
    × (set_back.wall "Europe/Berlin" c ≡ set_back.wall "Europe/Berlin" 660_000_001 + 1)
next_occurrence-backwards_example =
    next_occurrence-backwards library set_back "Europe/Berlin" 660_000_001 420_000_000
      (λ n. (omega arith, omega arith, omega arith, omega arith))
      (record { shown = set_back-shown; first = set_back-first }) refl nightly_zone refl
      (omega arith)

first_match-IsFirstMatch_example : IsFirstMatch calendar "2 * * * *" 5 0 (some 2)
first_match-IsFirstMatch_example =
    first_match-IsFirstMatch calendar "2 * * * *" 5 0 (some 2) second_minute
