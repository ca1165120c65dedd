-- ===== src/Schedule/Stored.antt =====
-- agent_core/scheduler.py: the stored forms of schedules and runs.
pub mod Back
use nosis.Base.{
  ℕ, zero, suc, String, Bool, true, false, Option, none, some, List, [], ◌∷◌, ◌==◌, not,
  if◌then◌else◌, Result, returned, raised, ◌>>=◌, ◌>>◌,
}
use nosis.Base.Texts.{is_empty}
use nosis.Base.Json.{
  Json, null, boolean, number, string, array, object, Items, nil, item, Fields, end, field, get,
  PyError, value_error, type_error, require, get_or, text?, optional_text, is_text, str,
}
use nosis.Schedule.Trigger.{
  Trigger, Schedule, ScheduledRun, Library, make_cron, make_interval, parse_dt, optional_time,
  trigger_to_dict,
}
use nosis.Schedule.Trigger.{once}

-- `bool(v)`
abbrev truth : Json → Bool
truth null = false
truth (boolean b) = b
truth (number zero) = false
truth (number (suc n)) = true
truth (string s) = not (is_empty s)
truth (array nil) = false
truth (array (item j js)) = true
truth (object end) = false
truth (object (field k v d)) = true

-- `dict(v)` of a dict
abbrev pub dict_of : Json → Result PyError Fields
dict_of (object d) = returned d
dict_of _ = raised type_error

-- `IntervalTrigger(value.get("seconds"), ...)` refuses what is no number.
abbrev stored_seconds : Option Json → Result PyError ℕ
stored_seconds (some (number n)) = returned n
stored_seconds _ = raised (value_error "interval seconds must be a positive integer")

abbrev or_now : ℕ → Option ℕ → ℕ
or_now now none = now
or_now now (some t) = t

abbrev once_at : Option ℕ → Result PyError Trigger
once_at none = raised (value_error "once trigger requires at")
once_at (some at) = returned (once at)

module _ (lib : Library) where
  open lib use {repr}

  -- `_trigger_from_dict`
  unfoldable pub trigger_from_dict : Fields → Result PyError Trigger
  trigger_from_dict d =
      let kind = get_or null "type" d in
      if is_text kind "once"
      then (do at ← parse_dt lib (get "at" d); once_at at)
      else if is_text kind "cron"
      then (do
        expression ← require "expression" d
        make_cron lib (str repr expression) (str repr (get_or (string "UTC") "timezone" d)))
      else if is_text kind "interval"
      then (do
        start_at ← parse_dt lib (get "start_at" d)
        seconds ← stored_seconds (get "seconds" d)
        make_interval lib seconds start_at)
      else raised (value_error "unknown trigger type")

  -- `_schedule_to_dict`: the order of the dataclass's fields
  unfoldable pub schedule_to_dict : Schedule → Fields
  schedule_to_dict s = field "schedule_id" (string s.schedule_id) (
      field "trigger" (object (trigger_to_dict lib s.trigger)) (
        field "action"
          (object (field "prompt" (string s.prompt) (field "type" (string "agent_turn") end)))
          (field "workspace" (string s.workspace) (
            field "origin_session_id" (string s.origin_session_id) (
              field "schedule_session_id" (string s.schedule_session_id) (
                field "enabled" (boolean s.enabled) (
                  field "end_at" (optional_time lib s.end_at) (
                    field "created_at" (optional_time lib (some s.created_at))
                      (field "next_run_at" (optional_time lib s.next_run_at) end)))))))))

  -- `_schedule_from_dict`; `now` is what `datetime.now` gives.
  unfoldable pub schedule_from_dict : ℕ → Fields → Result PyError Schedule
  schedule_from_dict now d = do
    schedule_id ← require "schedule_id" d
    trigger_json ← require "trigger" d
    trigger_dict ← dict_of trigger_json
    trigger ← trigger_from_dict trigger_dict
    action ← require "action" d
    action_dict ← dict_of action
    prompt ← require "prompt" action_dict
    workspace ← require "workspace" d
    origin ← require "origin_session_id" d
    target ← require "schedule_session_id" d
    end_at ← parse_dt lib (get "end_at" d)
    created_at ← parse_dt lib (get "created_at" d)
    next_run_at ← parse_dt lib (get "next_run_at" d)
    returned (record {
      schedule_id = str repr schedule_id;
      trigger = trigger;
      prompt = str repr prompt;
      workspace = str repr workspace;
      origin_session_id = str repr origin;
      schedule_session_id = str repr target;
      enabled = truth (get_or (boolean true) "enabled" d);
      end_at = end_at;
      created_at = or_now now created_at;
      next_run_at = next_run_at;
    })

  -- `_run_to_dict`
  unfoldable pub run_to_dict : ScheduledRun → Fields
  run_to_dict r = field "run_id" (string r.run_id) (
      field "schedule_id" (string r.schedule_id) (
        field "session_id" (string r.session_id) (
          field "turn_id" (string r.turn_id) (
            field "scheduled_for" (optional_time lib (some r.scheduled_for)) (
              field "started_at" (optional_time lib r.started_at) (
                field "finished_at" (optional_time lib r.finished_at) (
                  field "status" (string r.status)
                    (field "error" (optional_text r.error) end))))))))

  -- `_run_from_dict`
  unfoldable pub run_from_dict : ℕ → Fields → Result PyError ScheduledRun
  run_from_dict now d = do
    run_id ← require "run_id" d
    schedule_id ← require "schedule_id" d
    session_id ← require "session_id" d
    turn_id ← require "turn_id" d
    scheduled_for ← parse_dt lib (get "scheduled_for" d)
    started_at ← parse_dt lib (get "started_at" d)
    finished_at ← parse_dt lib (get "finished_at" d)
    returned (record {
      run_id = str repr run_id;
      schedule_id = str repr schedule_id;
      session_id = str repr session_id;
      turn_id = str repr turn_id;
      scheduled_for = or_now now scheduled_for;
      started_at = started_at;
      finished_at = finished_at;
      status = str repr (get_or (string "scheduled") "status" d);
      error = text? (get "error" d);
    })
