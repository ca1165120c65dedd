-- ===== src/Session/Operations.antt =====
-- agent_core/session.py: the operations of a session that record an event.
use nosis.Base.{
  ℕ, String, Bool, true, false, Option, none, some, List, [], ◌∷◌, ◌++◌, ◌==◌, if◌then◌else◌,
  returned, raised,
}
use Prim.Native.String.{◌++◌ as str_append}
use nosis.Base.Texts.{is_empty}
use nosis.Base.Dict.{find}
use nosis.Base.Json.{
  Json, null, boolean, number, string, object, Fields, end, field, optional_text, Python,
}
use nosis.Session.Message.{
  ContentPart, Content, text, parts, content_parts, ToolCall, Message, message_to_dict, field_if,
  text_json,
}
use nosis.Session.State.{RuntimeErrorInfo, InputTokenAnchor, Turn, Session}
use nosis.Session.Journal.{Moment, Outcome, emit}

-- agent_core/usage.py
pub record TokenUsage : Type 0 where
  pub input_tokens : Option ℕ
  pub output_tokens : Option ℕ
  pub total_tokens : Option ℕ
  pub cache_read_tokens : Option ℕ
  pub cache_write_tokens : Option ℕ

-- agent_core/llm.py
pub record AuxiliaryModelCall : Type 0 where
  pub task : String
  pub scope : Option String
  pub attempt : ℕ
  pub status : String
  pub started_at_utc : ℕ
  pub duration_ms : ℕ
  pub usage : Option TokenUsage
  pub error : Option String

-- The arguments of `add_item`.
pub record Item : Type 0 where
  pub role : String
  pub content : Content
  pub timestamp_utc : Option ℕ
  pub tool_calls : List ToolCall
  pub tool_call_id : Option String
  pub reasoning : Option String
  pub attachments : List ContentPart
  pub origin : String
  pub user_source : String
  pub provider_data : Fields

abbrev count_json : Option ℕ → Json
count_json none = null
count_json (some n) = number n

unfoldable pub usage_to_dict : Option TokenUsage → Json
usage_to_dict none = null
usage_to_dict (some u) = object (
    field "input_tokens" (count_json u.input_tokens) (
      field "output_tokens" (count_json u.output_tokens) (
        field "total_tokens" (count_json u.total_tokens) (
          field "cache_read_tokens" (count_json u.cache_read_tokens)
            (field "cache_write_tokens" (count_json u.cache_write_tokens) end)))))

abbrev anchor_json : Option InputTokenAnchor → Json
anchor_json none = null
anchor_json (some a) = object (
    field "fingerprint" (string a.fingerprint) (
      field "local_tokens" (number a.local_tokens)
        (field "input_tokens" (number a.input_tokens) end)))

-- `given or other`, for texts
abbrev or_text : Option String → Option String → Option String
or_text none other = other
or_text (some s) other = if is_empty s then other else some s

abbrev is_given : Option Turn → Bool
is_given none = false
is_given (some _) = true

abbrev same_text : String → Option String → Bool
same_text s none = false
same_text s (some t) = s == t

abbrev info_json : Option RuntimeErrorInfo → Option Json
info_json none = none
info_json (some e) = some (
    object (
      field "type" (string e.type)
        (field "message" (string e.message) (field "details" (object e.details) end))))

-- An assignment after the event, which an exception skips.
unfoldable pub then_current : Option String → Outcome → Outcome
then_current c (raised problem, s) = (raised problem, s)
then_current c (returned value, s) = (returned value, record s { current_turn_id = c })

abbrev pub skip : Session → Outcome
skip s = (returned tt, s)

-- `turn_id is None or turn_id in self.turns`
abbrev chosen_turn_id : Moment → Option String → Session → String
chosen_turn_id moment none s = moment.fresh_turn_id
chosen_turn_id moment (some t) s = if is_given (find t s.turns) then moment.fresh_turn_id else t

abbrev with_attachments : Content → List ContentPart → Content
with_attachments c [] = c
with_attachments c (a ∷ others) = parts (content_parts c ++ a ∷ others)

abbrev pub message_of : Item → Message
message_of i = record {
  role = i.role;
  content = with_attachments i.content i.attachments;
  timestamp_utc = i.timestamp_utc;
  tool_calls = i.tool_calls;
  tool_call_id = i.tool_call_id;
  reasoning = i.reasoning;
  origin = i.origin;
  provider_data = i.provider_data;
}

abbrev source_field : String → Fields
source_field s = if s == "user_input" then end else field "user_source" (string s) end

-- The arguments that `record_user_interaction` leaves out have their defaults.
abbrev pub interaction : String → String → Item
interaction content source = record {
  role = "user";
  content = text content;
  timestamp_utc = none;
  tool_calls = [];
  tool_call_id = none;
  reasoning = none;
  attachments = [];
  origin = "user_interaction";
  user_source = source;
  provider_data = end;
}

module _ (python : Python) (moment : Moment) where
  unfoldable pub begin_turn : Option String → Session → Outcome
  begin_turn turn_id s =
      let chosen = chosen_turn_id moment turn_id s in
      then_current (some chosen) (
        emit python moment "turn_started" (some chosen) (field "status" (string "running") end) none
          s)

  unfoldable pub add_item : Item → Session → Outcome
  add_item i s =
      emit python moment "message_appended" s.current_turn_id
        (field "message" (object (message_to_dict python (message_of i)))
          (source_field i.user_source))
        i.tool_call_id s

  unfoldable pub record_in : Option String → Item → Session → Outcome
  record_in none i s = skip s
  record_in (some _) i s = add_item i s

  unfoldable pub record_user_interaction : String → String → Session → Outcome
  record_user_interaction content source s =
      record_in s.current_turn_id (interaction content source) s

  unfoldable pub finish_known : Option String → String → Option RuntimeErrorInfo → Session → Outcome
  finish_known none status error s = skip s
  finish_known (some t) status error s =
      then_current (if same_text t s.current_turn_id then none else s.current_turn_id) (
        emit python moment (str_append "turn_" status) (some t)
          (field "status" (string status) (field_if "error" (info_json error) end)) none s)

  unfoldable pub finish_turn : String → Option String → Option RuntimeErrorInfo → Session → Outcome
  finish_turn status turn_id error s =
      finish_known (or_text turn_id s.current_turn_id) status error s

  unfoldable pub tool_started : ToolCall → Option String → Session → Outcome
  tool_started call turn_id s =
      emit python moment "tool_started" (or_text turn_id s.current_turn_id)
        (field "name" (string call.name) (field "arguments" call.arguments end)) (some call.id) s

  unfoldable pub model_completed :
      ℕ → Option TokenUsage → Bool → Option InputTokenAnchor → Session → Outcome
  model_completed index usage has_tool_calls anchor s =
      emit python moment "model_completed" s.current_turn_id
        (field "model_call_index" (number index) (
          field "has_tool_calls" (boolean has_tool_calls) (
            field "usage" (usage_to_dict usage)
              (field "input_token_anchor" (anchor_json anchor) end))))
        none s

  abbrev turn_or_current : Option String → Session → Option String
  turn_or_current none s = s.current_turn_id
  turn_or_current (some t) s = some t

  unfoldable pub auxiliary_model_completed :
      AuxiliaryModelCall → Option String → Option String → Session → Outcome
  auxiliary_model_completed call model turn_id s =
      emit python moment (str_append call.task "_completed") (turn_or_current turn_id s)
        (field "model" (optional_text model) (
          field "scope" (optional_text call.scope) (
            field "attempt" (number call.attempt) (
              field "status" (string call.status) (
                field "started_at_utc" (string (python.format_utc call.started_at_utc)) (
                  field "duration_ms" (number call.duration_ms) (
                    field "usage" (usage_to_dict call.usage)
                      (field "error" (optional_text call.error) end))))))))
        none s

  unfoldable pub tool_finished :
      ToolCall → String → Option String → Option String → Session → Outcome
  tool_finished call status error turn_id s =
      emit python moment (str_append "tool_" status) (or_text turn_id s.current_turn_id)
        (field "status" (string status)
          (field "name" (string call.name) (field_if "error" (text_json error) end)))
        (some call.id) s
