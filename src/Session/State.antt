-- ===== src/Session/State.antt =====
-- agent_core/session.py: the data of a session. A time is a number of microseconds. A status is what
-- the payload holds, which the code does not check for turns and tool executions.
use nosis.Base.{ℕ, String, Option, none, List, []}
use nosis.Base.Json.{Json, Fields}
use nosis.Execution.Authority.{
  ExecutionAuthority, approval_required_authority, workspace_access_authority,
  full_access_authority,
}
use nosis.Plan.{PlanSnapshot}
use nosis.Session.Message.{Message, Content}

-- `PermissionPreset` of agent_core/permissions.py
pub data PermissionPreset : Type 0 where
  ask_for_approval workspace_access full_access : PermissionPreset

abbrev pub preset_value : PermissionPreset → String
preset_value ask_for_approval = "ask_for_approval"
preset_value workspace_access = "workspace_access"
preset_value full_access = "full_access"

abbrev pub authority : PermissionPreset → ExecutionAuthority
authority ask_for_approval = approval_required_authority
authority workspace_access = workspace_access_authority
authority full_access = full_access_authority

pub record JournalEvent : Type 0 where
  pub seq : ℕ
  pub event_id : String
  pub event_type : String
  pub turn_id : Option String
  pub timestamp_utc : ℕ
  pub tool_call_id : Option String
  pub payload : Fields

-- `RuntimeErrorInfo` of agent_core/errors.py
pub record RuntimeErrorInfo : Type 0 where
  pub type : String
  pub message : String
  pub details : Fields

pub record Turn : Type 0 where
  pub turn_id : String
  pub status : Json
  pub started_at : Option ℕ
  pub finished_at : Option ℕ
  pub error : Option RuntimeErrorInfo

pub record ToolExecution : Type 0 where
  pub tool_call_id : String
  pub turn_id : Option String
  pub name : String
  pub arguments : Json
  pub status : Json
  pub started_at : Option ℕ
  pub completed_at : Option ℕ
  pub error : Option String

pub record JobExecution : Type 0 where
  pub job_id : String
  pub turn_id : String
  pub kind : String
  pub status : String
  pub submitted_at : Option ℕ
  pub started_at : Option ℕ
  pub completed_at : Option ℕ
  pub error : Option String
  pub details : Fields
  pub elapsed_seconds : Json
  pub progress : Json
  pub result_summary : Json

pub record UserAnchor : Type 0 where
  pub turn_id : String
  pub content : Content
  pub timestamp_utc : ℕ
  pub source : String
  pub item_index : ℕ

-- agent_core/usage.py
pub record CacheUsage : Type 0 where
  pub input_tokens : ℕ
  pub cache_read_tokens : ℕ

pub record InputTokenAnchor : Type 0 where
  pub fingerprint : String
  pub local_tokens : ℕ
  pub input_tokens : ℕ

-- What `apply_event` writes.
pub record Replayed : Type 0 where
  pub items : List Message
  pub archived_summary : Option String
  pub archived_item_cursor : ℕ
  pub compression_count : ℕ
  pub permission_preset : PermissionPreset
  pub plan : Option PlanSnapshot
  pub cache_usage : Option CacheUsage
  pub input_token_anchor : Option InputTokenAnchor
  pub turns : List (String × Turn)
  pub tool_executions : List (String × ToolExecution)
  pub jobs : List (String × JobExecution)
  pub user_anchors : List UserAnchor

-- `stored` is what the journal sink has been given, `None` if no sink is attached.
pub record Session : Type 0 where
  pub state : Replayed
  pub open state use *
  pub journal : List JournalEvent
  pub stored : Option (List JournalEvent)
  pub current_turn_id : Option String

abbrev pub blank : Replayed
blank = record {
  items = [];
  archived_summary = none;
  archived_item_cursor = 0;
  compression_count = 0;
  permission_preset = ask_for_approval;
  plan = none;
  cache_usage = none;
  input_token_anchor = none;
  turns = [];
  tool_executions = [];
  jobs = [];
  user_anchors = [];
}

-- `Session()`, with a sink or without.
abbrev pub new_session : Option (List JournalEvent) → Session
new_session sink = record { state = blank; journal = []; stored = sink; current_turn_id = none }
