-- ===== src/Session/Apply.antt =====
-- agent_core/session.py: `Session.apply_event`, one function for each branch. An exception leaves
-- what was written before it, so the state comes back beside the error.
pub mod Run
pub mod Messages
pub mod Turns
pub mod Jobs
pub mod Context
use nosis.Base.{
  ℕ, ◌+◌, String, Bool, true, false, Option, none, some, List, [], ◌∷◌, ◌++◌, ◌&&◌, ◌||◌, ◌==◌, not,
  contains, nat_eq, length, if◌then◌else◌, Result, returned, raised, ◌>>=◌, ◌>>◌, raise_if,
}
use text.Mathlib.Text.{starts_with}
use nosis.Base.Texts.{is_empty}
use nosis.Base.Dict.{find, put}
use nosis.Base.Json.{
  Json, null, number, string, object, array, boolean, Fields, end, field, get, field_count, PyError,
  value_error, key_error, type_error, require, get_or, text?, object?, as_text, as_number, str,
  is_text, Python,
}
use nosis.Plan.{from_dict}
use nosis.Session.Message.{Message, is_user_authored}
use nosis.Session.Message.Read.{message_from_dict}
use nosis.Session.State.{
  PermissionPreset, ask_for_approval, workspace_access, full_access, JournalEvent, RuntimeErrorInfo,
  Turn, ToolExecution, JobExecution, UserAnchor, CacheUsage, InputTokenAnchor, Replayed,
}
use nosis.Session.Apply.Run.{Applied, done, fail, reading, with_text, with_job}
use nosis.Session.Apply.Messages.{apply_message, apply_completed}
use nosis.Session.Apply.Turns.{
  apply_turn_started, apply_turn, apply_tool_started, apply_tool_finished, apply_tool_recovered,
}
use nosis.Session.Apply.Jobs.{apply_job_submitted, apply_job_started, apply_job_finished}
use nosis.Session.Apply.Context.{apply_archived, apply_preset, apply_plan}

abbrev pub tool_finished_types : List String
tool_finished_types = "tool_completed" ∷ "tool_failed" ∷ "tool_cancelled" ∷ "tool_unknown" ∷ []

abbrev pub job_finished_types : List String
job_finished_types = "job_completed" ∷ "job_failed" ∷ "job_cancelled" ∷ "job_interrupted" ∷ []

-- Any type that is not listed changes nothing.
unfoldable pub apply_event : Python → JournalEvent → Replayed → Applied
apply_event python e s =
    let kind = e.event_type in
    let job_id = text? (get "job_id" e.payload) in
    if kind == "message_appended"
    then apply_message python e (object? (get "message" e.payload)) s
    else if kind == "model_completed"
    then apply_completed true e s
    else if kind == "compression_completed"
    then apply_completed false e s
    else if kind == "turn_started"
    then with_text e.turn_id (apply_turn_started e) s
    else if starts_with kind "turn_"
    then with_text e.turn_id (apply_turn e) s
    else if kind == "tool_started"
    then with_text e.tool_call_id (apply_tool_started python e) s
    else if contains tool_finished_types kind
    then with_text e.tool_call_id (apply_tool_finished python e) s
    else if kind == "tool_recovered"
    then with_text e.tool_call_id (apply_tool_recovered e) s
    else if kind == "job_submitted"
    then with_job job_id e.turn_id (apply_job_submitted python e) s
    else if kind == "job_started"
    then with_job job_id e.turn_id (apply_job_started python e) s
    else if contains job_finished_types kind
    then with_job job_id e.turn_id (apply_job_finished python e) s
    else if kind == "context_archived"
    then apply_archived e s
    else if kind == "permission_preset_changed"
    then apply_preset python e s
    else if kind == "plan_updated"
    then apply_plan python (object? (get "plan" e.payload)) s
    else done s
