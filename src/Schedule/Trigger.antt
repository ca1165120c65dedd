-- ===== src/Schedule/Trigger.antt =====
-- agent_core/scheduler.py: triggers and schedules, their input forms and their stored forms. A time is a
-- number of microseconds; what `datetime.fromisoformat` reads without an offset is no time.
use nosis.Base.{
  ℕ, String, Bool, true, Option, none, some, List, [], ◌∷◌, ◌==◌, ◌&&◌, ◌||◌, not, ltb, contains,
  if◌then◌else◌, Result, returned, raised, ◌>>=◌, ◌>>◌, raise_if,
}
use nosis.Base.Texts.{strip, is_empty}
use nosis.Base.Json.{
  Json, null, boolean, number, string, object, Fields, end, field, get, PyError, value_error,
  get_or, is_text,
}

pub data Trigger : Type 0 where
  once : (at : ℕ) → Trigger
  cron : (expression timezone : String) → Trigger
  interval : (seconds : ℕ) → (start_at : Option ℕ) → Trigger

pub record Schedule : Type 0 where
  pub schedule_id : String
  pub trigger : Trigger
  pub prompt : String
  pub workspace : String
  pub origin_session_id : String
  pub schedule_session_id : String
  pub enabled : Bool
  pub end_at : Option ℕ
  pub created_at : ℕ
  pub next_run_at : Option ℕ

pub record ScheduledRun : Type 0 where
  pub run_id : String
  pub schedule_id : String
  pub session_id : String
  pub turn_id : String
  pub scheduled_for : ℕ
  pub started_at : Option ℕ
  pub finished_at : Option ℕ
  pub status : String
  pub error : Option String

-- The libraries: `datetime.isoformat`, `datetime.fromisoformat` (which may read a time without an
-- offset), `str` of a value that is no text, and the names that `ZoneInfo` knows.
pub record Library : Type 0 where
  pub isoformat : ℕ → String
  pub fromisoformat : String → Result PyError (Option ℕ)
  pub repr : Json → String
  pub is_zone : String → Bool

-- A field that may be absent from the changes of an update.
pub record ScheduleUpdate : Type 0 where
  pub prompt : Option String
  pub trigger : Option Trigger
  pub enabled : Option Bool
  pub end_at : Option (Option ℕ)

-- `_require_aware`
unfoldable pub require_aware : Option ℕ → Result PyError ℕ
require_aware none = raised (value_error "must include a timezone offset")
require_aware (some t) = returned t

unfoldable pub parse_schedule_prompt_input : Json → Result PyError String
parse_schedule_prompt_input (string s) =
    if is_empty (strip s)
    then raised (value_error "prompt must be a non-empty string")
    else returned (strip s)
parse_schedule_prompt_input _ = raised (value_error "prompt must be a non-empty string")

unfoldable pub parse_schedule_id_input : Json → Result PyError String
parse_schedule_id_input (string s) =
    if is_empty s then raised (value_error "schedule_id must be a non-empty string") else returned s
parse_schedule_id_input _ = raised (value_error "schedule_id must be a non-empty string")

unfoldable pub parse_schedule_enabled_input : Json → Result PyError Bool
parse_schedule_enabled_input (boolean b) = returned b
parse_schedule_enabled_input _ = raised (value_error "enabled must be a boolean")

-- `set(value) - allowed` is empty.
abbrev pub has_only : List String → Fields → Bool
has_only allowed end = true
has_only allowed (field k v rest) = contains allowed k && has_only allowed rest

module _ (lib : Library) where
  open lib use {isoformat, fromisoformat, repr, is_zone}

  -- `_timezone` finds the zone.
  unfoldable pub is_known_zone : String → Bool
  is_known_zone name = name == "UTC" || (not (is_empty name) && is_zone name)

  unfoldable pub make_cron : String → String → Result PyError Trigger
  make_cron expression timezone =
      if is_known_zone timezone
      then returned (cron expression timezone)
      else raised (value_error "unknown IANA timezone")

  unfoldable pub make_interval : ℕ → Option ℕ → Result PyError Trigger
  make_interval seconds start_at =
      if ltb seconds 1
      then raised (value_error "interval seconds must be a positive integer")
      else returned (interval seconds start_at)

  -- `datetime.fromisoformat` and `_require_aware`
  unfoldable pub aware_time : String → Result PyError ℕ
  aware_time s = fromisoformat s >>= require_aware

  -- `_parse_dt`
  unfoldable pub parse_dt : Option Json → Result PyError (Option ℕ)
  parse_dt (some (string s)) =
      if is_empty s then returned none else (aware_time s >>= λ t. returned (some t))
  parse_dt _ = returned none

  abbrev pub optional_time : Option ℕ → Json
  optional_time none = null
  optional_time (some t) = string (isoformat t)

  unfoldable pub trigger_to_dict : Trigger → Fields
  trigger_to_dict (once at) = field "type" (string "once") (field "at" (string (isoformat at)) end)
  trigger_to_dict (cron expression timezone) =
      field "type" (string "cron")
        (field "expression" (string expression) (field "timezone" (string timezone) end))
  trigger_to_dict (interval seconds start_at) =
      field "type" (string "interval")
        (field "seconds" (number seconds) (field "start_at" (optional_time start_at) end))

  -- An end that is given must be a text, or null.
  unfoldable pub parse_end_at_input : Json → Result PyError (Option ℕ)
  parse_end_at_input null = returned none
  parse_end_at_input (string s) =
      if is_empty s
      then raised (value_error "end_at must be an ISO-8601 string or null")
      else (aware_time s >>= λ t. returned (some t))
  parse_end_at_input _ = raised (value_error "end_at must be an ISO-8601 string or null")

  abbrev given_text : String → Option Json → Result PyError String
  given_text problem (some (string s)) =
      if is_empty s then raised (value_error problem) else returned s
  given_text problem _ = raised (value_error problem)

  abbrev zone_of : Option Json → Result PyError String
  zone_of none = returned "UTC"
  zone_of (some j) = given_text "cron trigger timezone must be an IANA timezone name" (some j)

  -- An integer that is no bool and at least 1; negative numbers are outside the model's JSON.
  abbrev seconds_of : Option Json → Result PyError ℕ
  seconds_of (some (number n)) =
      if ltb n 1
      then raised (value_error "Error: interval trigger requires positive integer 'seconds'.")
      else returned n
  seconds_of _ = raised (value_error "Error: interval trigger requires positive integer 'seconds'.")

  abbrev start_of : Option Json → Result PyError (Option String)
  start_of none = returned none
  start_of (some null) = returned none
  start_of (some (string s)) =
      if is_empty s
      then raised (value_error "interval trigger start_at must be an ISO-8601 string or null")
      else returned (some s)
  start_of _ = raised (value_error "interval trigger start_at must be an ISO-8601 string or null")

  abbrev start_time : Option String → Result PyError (Option ℕ)
  start_time none = returned none
  start_time (some s) = do t ← aware_time s; returned (some t)

  unfoldable pub parse_once : Fields → Result PyError Trigger
  parse_once d = do
    raise_if (not (has_only ("type" ∷ "at" ∷ []) d))
        (value_error "once trigger has unsupported field(s)")
    s ← given_text "Error: once trigger requires 'at'." (get "at" d)
    t ← aware_time s
    returned (once t)

  unfoldable pub parse_cron : Fields → Result PyError Trigger
  parse_cron d = do
    raise_if (not (has_only ("type" ∷ "expression" ∷ "timezone" ∷ []) d))
        (value_error "cron trigger has unsupported field(s)")
    expression ← given_text "Error: cron trigger requires 'expression'." (get "expression" d)
    timezone ← zone_of (get "timezone" d)
    make_cron expression timezone

  unfoldable pub parse_interval : Fields → Result PyError Trigger
  parse_interval d = do
    raise_if (not (has_only ("type" ∷ "seconds" ∷ "start_at" ∷ []) d))
        (value_error "interval trigger has unsupported field(s)")
    seconds ← seconds_of (get "seconds" d)
    start ← start_of (get "start_at" d)
    start_at ← start_time start
    make_interval seconds start_at

  unfoldable pub parse_trigger_input : Json → Result PyError Trigger
  parse_trigger_input (object d) =
      let kind = get_or null "type" d in
      if is_text kind "once"
      then parse_once d
      else if is_text kind "cron"
      then parse_cron d
      else if is_text kind "interval"
      then parse_interval d
      else raised (value_error "trigger.type must be once, cron, or interval")
  parse_trigger_input _ = raised (value_error "trigger must be an object")

  -- A key that is present is parsed.
  abbrev if_present :
      {A : Type 0} → (Json → Result PyError A) → Option Json → Result PyError (Option A)
  if_present parse none = returned none
  if_present parse (some j) = do a ← parse j; returned (some a)

  unfoldable pub parse_schedule_update_input : Json → Result PyError ScheduleUpdate
  parse_schedule_update_input (object d) = do
    raise_if (not (has_only ("prompt" ∷ "trigger" ∷ "enabled" ∷ "end_at" ∷ []) d))
        (value_error "unsupported schedule update field(s)")
    prompt ← if_present parse_schedule_prompt_input (get "prompt" d)
    trigger ← if_present parse_trigger_input (get "trigger" d)
    enabled ← if_present parse_schedule_enabled_input (get "enabled" d)
    end_at ← if_present parse_end_at_input (get "end_at" d)
    returned (record { prompt = prompt; trigger = trigger; enabled = enabled; end_at = end_at })
  parse_schedule_update_input _ = raised (value_error "schedule update must be an object")
