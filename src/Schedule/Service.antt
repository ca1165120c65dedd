-- ===== src/Schedule/Service.antt =====
-- agent_core/scheduler.py: `SchedulerService`. Its file is the text; each method holds the lock, so that
-- the calls stand one after another. A call that raises keeps what it has changed. The times that
-- callers pass have an offset. A call
-- reads the clock once.
pub mod Poll
pub mod Keyed
pub mod Stores
pub mod Keeps
pub mod Threads
pub mod Due
pub mod Progress
mod Examples
use nosis.Base.{
  ℕ, zero, suc, ◌+◌, ◌-◌, ◌*◌, String, Bool, true, false, Option, none, some, List, [], ◌∷◌, ◌++◌,
  ◌==◌, ◌&&◌, ◌||◌, not, leb, contains, filter, if◌then◌else◌, Result, returned, raised,
}
use nosis.Base.Dict.{find, put, pop, values}
use nosis.Base.Texts.{concat}
use nosis.Base.Json.{Json, string, object, Fields, end, field, PyError, value_error, os_error}
use nosis.Schedule.Trigger.{
  Trigger, once, cron, interval, Schedule, ScheduledRun, ScheduleUpdate, Library,
  parse_schedule_prompt_input, parse_schedule_id_input,
}
use nosis.Schedule.Stored.{schedule_to_dict, run_to_dict}
use nosis.Schedule.Occurrence.{
  Calendar, second, next_occurrence, missed, next_after_missed_interval, until_end,
}
use nosis.Schedule.File.{
  JsonText, Table, with_schedule, with_run, reload, append, record_line, first_chars,
}

pub record Service : Type 0 where
  pub text : String
  pub table : Table
  pub running : List String
  pub has_runner : Bool

-- `resolve` is `str(Path(workspace).expanduser().resolve())`; `is_writable` tells whether the file can be
-- written, and `cut` how many characters of a line are in it otherwise.
pub record World : Type 0 where
  pub library : Library
  pub json : JsonText
  pub calendar : Calendar
  pub resolve : String → String
  pub is_writable : Bool
  pub cut : ℕ

abbrev pub Act : Type 0 → Type 0
Act A = Service → Result PyError A × Service

-- An error ends the call, in the state it was raised in.
abbrev pub continue_with :
    {A B : Type 0} → Result PyError A → Service → (A → Act B) → Result PyError B × Service
continue_with (raised e) s next = (raised e, s)
continue_with (returned a) s next = next a s

infixl 8 ◌>>=◌ ◌>>◌
abbrev pub ◌>>=◌ : {A B : Type 0} → Act A → (A → Act B) → Act B
◌>>=◌ act next s = continue_with (act s).0 (act s).1 next

abbrev pub ◌>>◌ : {B : Type 0} → Act (Unit {0}) → Act B → Act B
◌>>◌ act next s = continue_with (act s).0 (act s).1 (λ _. next)

abbrev pub lift : {A : Type 0} → Result PyError A → Act A
lift r s = (r, s)

abbrev pub change : (Service → Service) → Act (Unit {0})
change f s = (returned tt, f s)

-- Reads the state.
abbrev pub asks : {A : Type 0} → (Service → A) → Act A
asks f s = (returned (f s), s)

-- A record that is about a schedule.
abbrev pub schedule_record : Library → String → Schedule → Fields
schedule_record lib op s =
    field "op" (string op) (field "schedule" (object (schedule_to_dict lib s)) end)

abbrev pub delete_record : String → Fields
delete_record schedule_id =
    field "op" (string "delete") (field "schedule_id" (string schedule_id) end)

abbrev pub run_record : Library → ScheduledRun → Fields
run_record lib r = field "op" (string "run") (field "run" (object (run_to_dict lib r)) end)

abbrev pub change_table : (Table → Table) → Service → Service
change_table f s = record s { table = f s.table }

abbrev pub set_schedule : Schedule → Service → Service
set_schedule v s = change_table (λ t. with_schedule t v) s

abbrev pub without_schedule : String → Table → Table
without_schedule k t = record t { schedules = pop k t.schedules }

-- `replace(schedule, ...)` and the assignments before it
abbrev pub or_kept : {A : Type 0} → Option A → A → A
or_kept none a = a
or_kept (some b) a = b

abbrev take_table : Result PyError Table → Service → Result PyError (Unit {0}) × Service
take_table (raised e) s = (raised e, s)
take_table (returned t) s = (returned tt, record s { table = t })

abbrev pub found : Option Schedule → Result PyError Schedule
found none = raised (value_error "scheduled task not found")
found (some v) = returned v

abbrev pub replaced : ScheduleUpdate → (prompt : String) → (next : Option ℕ) → Schedule → Schedule
replaced changes prompt next s = record s {
  prompt = prompt;
  trigger = or_kept changes.trigger s.trigger;
  enabled = or_kept changes.enabled s.enabled;
  end_at = or_kept changes.end_at s.end_at;
  next_run_at = next;
}

abbrev pub prompt_of : Option String → String → Result PyError String
prompt_of none kept = returned kept
prompt_of (some p) kept = parse_schedule_prompt_input (string p)

module _ (world : World) where
  open world use {library, json, calendar, resolve, is_writable, cut}

  -- `_reload`, at the time `now`
  unfoldable pub reload_table : ℕ → Act (Unit {0})
  reload_table now s = take_table (reload library now json s.text) s

  -- `_append`; if it raises, some of the line may stand in the file, or all of it.
  unfoldable pub append_record : Fields → Act (Unit {0})
  append_record d s =
      if is_writable then (returned tt, record s { text = append json d s.text }) else (
        raised os_error,
        record s { text = concat s.text (first_chars cut (record_line json d)) },
      )

  -- The change of the table, the record that tells it, and the call's value.
  abbrev pub commit : {A : Type 0} → (Service → Service) → Fields → A → Act A
  commit f d value = do change f; append_record d; lift (returned value)

  -- The next run of a schedule that was created or changed.
  unfoldable pub first_run : Trigger → Option ℕ → ℕ → Result PyError (Option ℕ)
  first_run (interval seconds start_at) end_at now =
      next_occurrence library calendar (interval seconds start_at) end_at now
  first_run (once at) end_at now = next_occurrence library calendar (once at) end_at (now - second)
  first_run (cron expression zone) end_at now =
      next_occurrence library calendar (cron expression zone) end_at (now - second)

  -- `Schedule(str(uuid4()), ...)`
  abbrev pub created :
      (now : ℕ)
      → (new_id : String) → Trigger
      → (prompt workspace origin target : String) → (end_at next : Option ℕ) → Schedule
  created now new_id trigger prompt workspace origin target end_at next = record {
    schedule_id = new_id;
    trigger = trigger;
    prompt = prompt;
    workspace = resolve workspace;
    origin_session_id = origin;
    schedule_session_id = target;
    enabled = true;
    end_at = end_at;
    created_at = now;
    next_run_at = next;
  }

  -- `new_id` is what `uuid4` gives.
  unfoldable pub create_schedule :
      (now : ℕ)
      → (new_id : String) → Trigger
      → (prompt workspace origin target : String) → Option ℕ
      → Act Schedule
  create_schedule now new_id trigger prompt workspace origin target end_at = do
    text ← lift (parse_schedule_prompt_input (string prompt))
    next ← lift (first_run trigger end_at now)
    (let schedule = created now new_id trigger text workspace origin target end_at next in
        do
          reload_table now
          commit (set_schedule schedule) (schedule_record library "create" schedule) schedule)

  -- The schedule of a name that must be there.
  unfoldable pub find_schedule : String → Act Schedule
  find_schedule schedule_id s = (found (find schedule_id s.table.schedules), s)

  -- What the call does with the schedule that it found.
  unfoldable pub change_schedule : ℕ → String → ScheduleUpdate → Schedule → Act Schedule
  change_schedule now schedule_id changes schedule = do
    prompt ← lift (prompt_of changes.prompt schedule.prompt)
    next ← lift (
        first_run (or_kept changes.trigger schedule.trigger)
          (or_kept changes.end_at schedule.end_at) now)
    (let updated = replaced changes prompt next schedule in
        commit (change_table (λ t. record t { schedules = put schedule_id updated t.schedules }))
          (schedule_record library "update" updated) updated)

  unfoldable pub update_schedule :
      (now : ℕ) → (schedule_id : String) → ScheduleUpdate → Act Schedule
  update_schedule now name changes = do
    schedule_id ← lift (parse_schedule_id_input (string name))
    reload_table now
    schedule ← find_schedule schedule_id
    change_schedule now schedule_id changes schedule

  unfoldable pub delete_schedule : (now : ℕ) → (schedule_id : String) → Act (Unit {0})
  delete_schedule now name = do
    schedule_id ← lift (parse_schedule_id_input (string name))
    reload_table now
    schedule ← find_schedule schedule_id
    commit (change_table (without_schedule schedule_id)) (delete_record schedule_id) tt
