-- ===== src/Schedule/Service/Examples.antt =====
-- agent_core/scheduler.py: the theorems on the service at small inputs.
use nosis.Base.{
  ◌<◌, All, List, contains, ◌&&◌, ◌≡◌, refl, arith, ℕ, String, true, some, none, [], ◌==◌, returned,
  if◌then◌else◌,
}
use nosis.Base.Texts.{strip, lstrip, rstrip, is_space}
use nosis.Base.Dict.{values}
use nosis.Base.Json.{Json, null, string, object, get_or}
use nosis.Session.Examples.{strokes}
use nosis.Schedule.Examples.{library, calendar, library-ReadsTimes}
use nosis.Schedule.Trigger.{
  trigger_to_dict, parse_dt, aware_time, require_aware, parse_schedule_id_input, once, interval,
  Schedule, ScheduledRun, ScheduleUpdate, parse_schedule_prompt_input,
}
use nosis.Schedule.Stored.Back.{IsTrigger}
use nosis.Schedule.Stored.{schedule_to_dict, schedule_from_dict, trigger_from_dict}
use nosis.Schedule.Occurrence.{
  missed, next_occurrence, candidate, until_end, next_after_missed_interval,
}
use nosis.Schedule.File.{
  JsonText, reload, reload_lines, splitlines, ends_with_newline, is_line_break, apply_fields,
  empty_table, with_schedule,
}
use nosis.Schedule.File.Append.{IsWritten}
use nosis.Schedule.Service.{
  Service, World, change_schedule, find_schedule, schedule_record, delete_record, create_schedule,
  update_schedule, first_run, reload_table, append_record,
}
use nosis.Schedule.Service.Stores.{
  IsSynced, IsSaved, IfReturned, create_schedule-IsSaved, update_schedule-IsSaved,
}
use nosis.Schedule.Service.Due.{RunsOf}
use nosis.Schedule.Service.Poll.{begin_run, is_begun, run_of, Due, next_run, poll_once}
use nosis.Schedule.Service.Progress.{next_run-bounds, Finds, poll_once-MakesRuns}
use nosis.Schedule.Service.Threads.{
  started, System, Step, Reach, IsExclusive, thread_ids, Reach-IsExclusive,
}

-- `created` with its arguments
abbrev reminder : (prompt : String) → Schedule
reminder prompt = record {
  schedule_id = "s";
  trigger = once 5;
  prompt = prompt;
  workspace = "/w";
  origin_session_id = "o";
  schedule_session_id = "t";
  enabled = true;
  end_at = none;
  created_at = 1;
  next_run_at = some 5;
}

abbrev op_of : Json → String
op_of (object d) = elim (get_or null "op" d) [ string op ↦ op | _ ↦ "" ]
op_of _ = ""

-- A record is written as its op.
abbrev json : JsonText
json = record {
  loads = λ s.
      if s == "create"
      then some (object (schedule_record library "create" (reminder "look")))
      else if s == "update"
      then some (object (schedule_record library "update" (reminder "look again")))
      else if s == "delete"
      then some (object (delete_record "s"))
      else none;
  dumps = op_of;
}

abbrev world : World
world = record {
  library = library;
  json = json;
  calendar = calendar;
  resolve = λ path. path;
  is_writable = true;
  cut = 0;
}

abbrev idle : Service
idle = record { text = ""; table = empty_table; running = []; has_runner = true }

idle-IsSynced : IsSynced world idle
unfolding reload reload_lines splitlines ends_with_newline
idle-IsSynced = record { ended = refl; keyed = tt; read = λ now. refl }

created-IsWritten :
    IfReturned
      (λ v. IsWritten json (schedule_record library "create" v))
      (create_schedule world 1 "s" (once 5) "look" "/w" "o" "t" none idle).0
unfolding create_schedule first_run next_occurrence candidate until_end reload_table append_record
    reload reload_lines splitlines ends_with_newline parse_schedule_prompt_input strip lstrip rstrip
    is_space is_line_break
created-IsWritten = record { one_line = refl; filled = refl; read = refl }

create_schedule-IsSaved_example :
    IsSaved world idle
      (λ v t. with_schedule t v)
      (create_schedule world 1 "s" (once 5) "look" "/w" "o" "t" none idle)
create_schedule-IsSaved_example =
    create_schedule-IsSaved world library-ReadsTimes 1 "s" (once 5) "look" "/w" "o" "t" none idle
      idle-IsSynced tt created-IsWritten

-- What the service is after that call.
abbrev busy : Service
busy = record {
  text = "create\n";
  table = with_schedule empty_table (reminder "look");
  running = [];
  has_runner = true;
}

busy_reload : (now : ℕ) → reload library now json busy.text ≡ returned busy.table
unfolding reload reload_lines splitlines ends_with_newline is_line_break strip lstrip rstrip
    is_space apply_fields schedule_from_dict schedule_to_dict trigger_from_dict trigger_to_dict
    parse_dt aware_time require_aware
busy_reload now = refl

busy-IsSynced : IsSynced world busy
unfolding ends_with_newline
busy-IsSynced = record { ended = refl; keyed = (refl, tt); read = busy_reload }

abbrev changes : ScheduleUpdate
changes = record { prompt = some "look again"; trigger = none; enabled = none; end_at = none }

updated-IsWritten :
    IfReturned
      (λ v. IsTrigger library v.trigger × IsWritten json (schedule_record library "update" v))
      (update_schedule world 1 "s" changes busy).0
unfolding update_schedule change_schedule find_schedule first_run next_occurrence candidate
    until_end reload_table append_record reload reload_lines splitlines ends_with_newline
    parse_schedule_prompt_input parse_schedule_id_input strip lstrip rstrip is_space is_line_break
    apply_fields schedule_from_dict schedule_to_dict trigger_from_dict trigger_to_dict parse_dt
    aware_time require_aware
updated-IsWritten = (tt, record { one_line = refl; filled = refl; read = refl })

update_schedule-IsSaved_example :
    IsSaved world busy (λ v t. with_schedule t v) (update_schedule world 1 "s" changes busy)
update_schedule-IsSaved_example =
    update_schedule-IsSaved world library-ReadsTimes 1 "s" changes busy busy-IsSynced
      updated-IsWritten

missed_round :
    next_run world 130_000_000 (interval 60 none) none 5 (some "missed")
    ≡ returned (some 180_000_005)
unfolding next_run next_after_missed_interval until_end
missed_round = refl

next_run-bounds_example : (130_000_000 < 180_000_005) × Unit {0}
next_run-bounds_example =
    next_run-bounds world 130_000_000 (interval 60 none) none 5 (some "missed") 180_000_005
      (omega arith) (omega arith) missed_round

-- The schedule of the file is due, and will not run again.
busy-Finds : All (Finds world 7) (values busy.table.schedules)
unfolding next_run next_occurrence candidate until_end missed
busy-Finds = ((λ t d. tt), tt)

poll_once-MakesRuns_example :
    (runs : List ScheduledRun) × ((poll_once world 7 strokes busy).0 ≡ returned runs)
    × RunsOf 7 (values busy.table.schedules) runs
poll_once-MakesRuns_example =
    poll_once-MakesRuns world 7 strokes busy busy.table refl (busy_reload 7) busy-Finds

abbrev due : Due
due = record { schedule = reminder "look"; scheduled_for = 5; reason = none }

-- The system after a poll's round for that schedule.
abbrev polled : (now n : ℕ) → System → System
polled now n s = record {
  service = (begin_run world now strokes n due s.service).1;
  threads =
      started (is_begun none (contains s.service.running "s") s.service.has_runner && true)
        (record { schedule_id = "s"; run = run_of now strokes n due s.service }) s.threads;
}

abbrev quiet : System
quiet = record { service = busy; threads = [] }

-- Two rounds, of which the second finds the first one's run.
abbrev twice : System
twice = polled 8 1 (polled 7 0 quiet)

Reach-IsExclusive_example : IsExclusive twice.service.running (thread_ids twice.threads)
Reach-IsExclusive_example = Reach-IsExclusive world quiet twice refl (
    Reach.onward (polled 7 0 quiet) twice
      (Reach.onward quiet (polled 7 0 quiet) Reach.here (Step.begins 7 strokes 0 due))
      (Step.begins 8 strokes 1 due))
