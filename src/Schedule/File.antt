-- ===== src/Schedule/File.antt =====
-- agent_core/scheduler.py: the schedule file, to which records are appended and from which the service
-- reads schedules and runs. A file that does not exist is the empty text.
pub mod Append
mod Examples
use nosis.Base.{
  ℕ, zero, suc, String, Bool, true, false, Option, none, some, List, [], ◌∷◌, ◌++◌, ◌==◌, ◌&&◌,
  ◌||◌, not, leb, nat_eq, if◌then◌else◌, Result, returned, raised, ◌>>=◌,
}
use Prim.Native.Char.{Char, code}
use nosis.Base.Texts.{strip, is_empty, concat}
use nosis.Base.Dict.{put, pop}
use nosis.Base.Json.{
  Json, null, array, object, string, Fields, end, field, PyError, value_error, type_error, require,
  get_or, is_text, str,
}
use nosis.Schedule.Trigger.{Schedule, ScheduledRun, Library}
use nosis.Schedule.Stored.{schedule_from_dict, run_from_dict, dict_of}

-- `str.splitlines`, of a text in which reading has made every line end a newline.
unfoldable pub is_line_break : ℕ → Bool
is_line_break c =
    (leb 10 c && leb c 13)
    || (leb 28 c && leb c 30)
    || nat_eq c 0x85
    || nat_eq c 0x2028
    || nat_eq c 0x2029

abbrev pub push : Char → List String → List String
push c [] = String.◌∷◌ c "" ∷ []
push c (l ∷ ls) = String.◌∷◌ c l ∷ ls

unfoldable pub splitlines : String → List String
splitlines String.[] = []
splitlines (String.◌∷◌ c s) =
    let rest = splitlines s in if is_line_break (code c) then "" ∷ rest else push c rest

-- `text.endswith("\n")`
unfoldable pub ends_with_newline : String → Bool
ends_with_newline String.[] = false
ends_with_newline (String.◌∷◌ c String.[]) = nat_eq (code c) 10
ends_with_newline (String.◌∷◌ c (String.◌∷◌ d s)) = ends_with_newline (String.◌∷◌ d s)

-- `json.loads`, none where it raises, and `json.dumps`
pub record JsonText : Type 0 where
  pub loads : String → Option Json
  pub dumps : Json → String

pub record Table : Type 0 where
  pub schedules : List (String × Schedule)
  pub runs : List (String × ScheduledRun)

abbrev pub empty_table : Table
empty_table = record { schedules = []; runs = [] }

abbrev pub is_last : List String → Bool
is_last [] = true
is_last (l ∷ ls) = false

abbrev pub with_schedule : Table → Schedule → Table
with_schedule t s = record t { schedules = put s.schedule_id s t.schedules }

abbrev pub with_run : Table → ScheduledRun → Table
with_run t r = record t { runs = put r.run_id r t.runs }

-- What a dict's key can be; `op in {...}` refuses a list and a dict.
abbrev is_hashable : Json → Bool
is_hashable (array js) = false
is_hashable (object d) = false
is_hashable _ = true

module _ (lib : Library) (now : ℕ) where
  -- The branches on `record.get("op")`
  unfoldable pub apply_fields : Fields → Table → Result PyError Table
  apply_fields d t =
      let op = get_or null "op" d in
      if not (is_hashable op)
      then raised type_error
      else if is_text op "create" || is_text op "update"
      then (require "schedule" d >>= dict_of >>= λ v.
          schedule_from_dict lib now v >>= λ s. returned (with_schedule t s))
      else if is_text op "delete"
      then (require "schedule_id" d >>= λ v.
          returned (record t { schedules = pop (str lib.repr v) t.schedules }))
      else if is_text op "run"
      then (require "run" d >>= dict_of >>= λ v.
          run_from_dict lib now v >>= λ r. returned (with_run t r))
      else returned t

  abbrev pub apply_record : Json → Table → Result PyError Table
  apply_record j t = dict_of j >>= λ d. apply_fields d t

  module _ (json : JsonText) where
    -- A line that is no JSON ends the loop if it is the last one and not ended, and is an error
    -- otherwise.
    abbrev pub read_line :
        (is_whole : Bool)
        → Option Json
        → Table
        → (Table → Result PyError Table)
        → Result PyError Table
    read_line true none t next = raised (value_error "JSONDecodeError")
    read_line false none t next = returned t
    read_line is_whole (some j) t next = apply_record j t >>= next

    unfoldable pub reload_lines : (ended : Bool) → List String → Table → Result PyError Table
    reload_lines ended [] t = returned t
    reload_lines ended (l ∷ ls) t =
        let rest = reload_lines ended ls in
        if is_empty (strip l)
        then rest t
        else read_line (not (is_last ls && not ended)) (json.loads l) t rest

    -- `_reload`: the table that the file holds
    unfoldable pub reload : String → Result PyError Table
    reload text = reload_lines (ends_with_newline text) (splitlines text) empty_table

-- `handle.write(json.dumps(record) + "\n")`
abbrev pub record_line : JsonText → Fields → String
record_line json d = concat (json.dumps (object d)) "\n"

unfoldable pub append : JsonText → Fields → String → String
append json d text = concat text (record_line json d)

-- What was written of a line before the write ended.
unfoldable pub first_chars : ℕ → String → String
first_chars zero s = String.[]
first_chars (suc n) String.[] = String.[]
first_chars (suc n) (String.◌∷◌ c s) = String.◌∷◌ c (first_chars n s)
