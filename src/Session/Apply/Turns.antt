-- ===== src/Session/Apply/Turns.antt =====
-- agent_core/session.py: the branches of `apply_event` for turns and tool executions.
use nosis.Base.{String, Option, none, some, if◌then◌else◌, Result, returned, raised, ◌>>=◌}
use nosis.Base.Texts.{is_empty}
use nosis.Base.Dict.{find, put}
use nosis.Base.Json.{
  Json, string, object, end, get, PyError, value_error, require, get_or, text?, object?, str,
  Python,
}
use nosis.Session.State.{JournalEvent, RuntimeErrorInfo, Turn, ToolExecution, Replayed}
use nosis.Session.Apply.Run.{Applied, done, reading}

unfoldable pub apply_turn_started : JournalEvent → String → Replayed → Applied
apply_turn_started e turn_id s = done (record s {
  turns =
      put turn_id
        (record {
          turn_id = turn_id;
          status = string "running";
          started_at = some e.timestamp_utc;
          finished_at = none;
          error = none;
        })
        s.turns;
})

abbrev error_text : Option String → Result PyError String
error_text none = raised (value_error "runtime error type must be a non-empty string")
error_text (some type) =
    if is_empty type
    then raised (value_error "runtime error type must be a non-empty string")
    else returned type

abbrev given {ℓ} : {A : Type ℓ} → String → Option A → Result PyError A
given problem none = raised (value_error problem)
given problem (some a) = returned a

-- `runtime_error_from_dict` of agent_core/errors.py
abbrev error_info : Json → Result PyError RuntimeErrorInfo
error_info (object d) = do
  type ← error_text (text? (get "type" d))
  message ← given "runtime error message must be a string" (text? (get "message" d))
  details ← given "runtime error details must be an object" (object? (get "details" d))
  returned (record { type = type; message = message; details = details })
error_info _ = raised (value_error "runtime error must be an object")

abbrev pub optional_error : Option Json → Result PyError (Option RuntimeErrorInfo)
optional_error none = returned none
optional_error (some j) = do info ← error_info j; returned (some info)

abbrev pub known_turn : String → Option Turn → Turn
known_turn turn_id (some turn) = turn
known_turn turn_id none = record {
  turn_id = turn_id;
  status = string "unknown";
  started_at = none;
  finished_at = none;
  error = none;
}

-- Any other event whose type starts with "turn_". Status and time are written before the error is
-- read.
unfoldable pub apply_turn : JournalEvent → String → Replayed → Applied
apply_turn e turn_id s =
    let turn = record (known_turn turn_id (find turn_id s.turns)) {
      status = get_or (string "unknown") "status" e.payload;
      finished_at = some e.timestamp_utc;
    } in
    reading (optional_error (get "error" e.payload)) (record s { turns = put turn_id turn s.turns })
      λ error. done (record s { turns = put turn_id (record turn { error = error }) s.turns })

unfoldable pub apply_tool_started : Python → JournalEvent → String → Replayed → Applied
apply_tool_started python e call_id s = reading (require "arguments" e.payload) s λ arguments.
    done (record s {
      tool_executions =
          put call_id
            (record {
              tool_call_id = call_id;
              turn_id = e.turn_id;
              name = str python.repr (get_or (string "") "name" e.payload);
              arguments = arguments;
              status = string "started";
              started_at = some e.timestamp_utc;
              completed_at = none;
              error = none;
            })
            s.tool_executions;
    })

abbrev pub known_execution : Python → JournalEvent → String → Option ToolExecution → ToolExecution
known_execution python e call_id (some execution) = execution
known_execution python e call_id none = record {
  tool_call_id = call_id;
  turn_id = e.turn_id;
  name = str python.repr (get_or (string "") "name" e.payload);
  arguments = object end;
  status = string "unknown";
  started_at = none;
  completed_at = none;
  error = none;
}

unfoldable pub apply_tool_finished : Python → JournalEvent → String → Replayed → Applied
apply_tool_finished python e call_id s =
    let execution = known_execution python e call_id (find call_id s.tool_executions) in
    done (record s {
      tool_executions =
          put call_id
            (record execution {
              status = get_or (string "unknown") "status" e.payload;
              completed_at = some e.timestamp_utc;
              error = text? (get "error" e.payload);
            })
            s.tool_executions;
    })

unfoldable pub recover_execution :
    JournalEvent → String → Option ToolExecution → Replayed → Replayed
recover_execution e call_id none s = s
recover_execution e call_id (some execution) s = record s {
  tool_executions =
      put call_id
        (record execution { status = string "unknown"; completed_at = some e.timestamp_utc })
        s.tool_executions;
}

-- "tool_recovered"
unfoldable pub apply_tool_recovered : JournalEvent → String → Replayed → Applied
apply_tool_recovered e call_id s =
    done (recover_execution e call_id (find call_id s.tool_executions) s)
