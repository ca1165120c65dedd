-- ===== src/Session/Perform.antt =====
-- agent_core/session.py: the operations of a session as data, and runs of them.
pub mod Keeps
pub mod Runs
use nosis.Base.{ℕ, String, Bool, Option, List, [], ◌∷◌, Result, returned, raised}
use nosis.Base.Json.{Fields, PyError, Python}
use nosis.Plan.{PlanSnapshot}
use nosis.Session.Message.{ToolCall}
use nosis.Session.State.{
  PermissionPreset, RuntimeErrorInfo, InputTokenAnchor, JournalEvent, Replayed, Session,
}
use nosis.Session.Journal.{Moment, Outcome}
use nosis.Session.Operations.{
  TokenUsage, AuxiliaryModelCall, Item, begin_turn, add_item, record_user_interaction, finish_turn,
  tool_started, model_completed, auxiliary_model_completed, tool_finished,
}
use nosis.Session.Records.{
  JobResult, job_submitted, job_started, job_finished, set_archived_summary, set_permission_preset,
  set_plan, record_hook,
}
use nosis.Session.Recovery.{Clock, Recovered, recover}

-- A call of one of the public methods, with its arguments.
pub data Operation : Type 0 where
  begins : Option String → Operation
  adds : Item → Operation
  interacts : (content source : String) → Operation
  finishes : (status : String) → Option String → Option RuntimeErrorInfo → Operation
  starts_tool : ToolCall → Option String → Operation
  completes_model : ℕ → Option TokenUsage → Bool → Option InputTokenAnchor → Operation
  completes_auxiliary : AuxiliaryModelCall → (model turn_id : Option String) → Operation
  finishes_tool : ToolCall → (status : String) → (error turn_id : Option String) → Operation
  submits_job : (job_id kind turn_id : String) → (details : Fields) → Operation
  starts_job : (job_id kind turn_id : String) → Operation
  finishes_job : (job_id kind turn_id : String) → JobResult → Operation
  archives : (summary : String) → (item_cursor : ℕ) → Operation
  sets_preset : PermissionPreset → Operation
  sets_plan : PlanSnapshot → Operation
  records_hook : (status : String) → (payload : Fields) → Option String → Operation
  recovers : Clock → Operation

-- What `recover` returns is not used here.
abbrev pub without_events : Recovered → Outcome
without_events (raised problem, s) = (raised problem, s)
without_events (returned es, s) = (returned tt, s)

module _ (python : Python) where
  unfoldable pub perform : Moment → Operation → Session → Outcome
  perform m (begins turn_id) s = begin_turn python m turn_id s
  perform m (adds i) s = add_item python m i s
  perform m (interacts content source) s = record_user_interaction python m content source s
  perform m (finishes status turn_id error) s = finish_turn python m status turn_id error s
  perform m (starts_tool call turn_id) s = tool_started python m call turn_id s
  perform m (completes_model index usage calls anchor) s =
      model_completed python m index usage calls anchor s
  perform m (completes_auxiliary call model turn_id) s =
      auxiliary_model_completed python m call model turn_id s
  perform m (finishes_tool call status error turn_id) s =
      tool_finished python m call status error turn_id s
  perform m (submits_job job_id kind turn_id details) s =
      job_submitted python m job_id kind turn_id details s
  perform m (starts_job job_id kind turn_id) s = job_started python m job_id kind turn_id s
  perform m (finishes_job job_id kind turn_id r) s = job_finished python m job_id kind turn_id r s
  perform m (archives summary item_cursor) s = set_archived_summary python m summary item_cursor s
  perform m (sets_preset preset) s = set_permission_preset python m preset s
  perform m (sets_plan snapshot) s = set_plan python m snapshot s
  perform m (records_hook status payload call_id) s = record_hook python m status payload call_id s
  perform m (recovers clock) s = without_events (recover python clock m.answer s)

  -- One call after the other; an exception does not end the session.
  unfoldable pub run : List (Moment × Operation) → Session → Session
  run [] s = s
  run ((m, o) ∷ calls) s = run calls ((perform m o s).1)

  abbrev and_then : Outcome → (Session → Outcome) → Outcome
  and_then (raised problem, s) next = (raised problem, s)
  and_then (returned value, s) next = next s

  -- One call after the other, to the first exception.
  unfoldable pub run_all : List (Moment × Operation) → Session → Outcome
  run_all [] s = (returned tt, s)
  run_all ((m, o) ∷ calls) s = and_then (perform m o s) (run_all calls)
