-- ===== src/Session/Message.antt =====
-- agent_core/content.py and the messages of agent_core/session.py, with their persisted form.
pub mod Read
pub mod Stored
pub mod History
mod Examples
use nosis.Base.{
  ℕ, String, Bool, true, false, Option, none, some, List, [], ◌∷◌, ◌++◌, ◌&&◌, ◌||◌, ◌==◌, contains,
  all, if◌then◌else◌, Result, returned, raised, ◌>>=◌, ◌>>◌, raise_if,
}
use Prim.Native.String.{◌++◌ as str_append}
use nosis.Base.Texts.{is_empty}
use nosis.Base.Json.{
  Json, null, number, string, array, object, Items, nil, item, Fields, end, field, get, also,
  PyError, value_error, type_error, require, text?, as_text, as_optional_text, Python,
}

pub data ContentPart : Type 0 where
  text_part : String → ContentPart
  image_part : (path mime_type filename : String) (size_bytes : ℕ) → ContentPart
  file_part : (path filename mime_type : String) (size_bytes : ℕ) → ContentPart

pub data Content : Type 0 where
  absent : Content
  text : String → Content
  parts : List ContentPart → Content

unfoldable pub content_parts : Content → List ContentPart
content_parts absent = []
content_parts (text s) = text_part s ∷ []
content_parts (parts ps) = ps

pub record ToolError : Type 0 where
  pub type : String
  pub message : String
  pub details : Option Fields

pub record ToolCall : Type 0 where
  pub id : String
  pub name : String
  -- a dict, or the raw text of invalid arguments
  pub arguments : Json
  pub argument_error : Option ToolError

pub record Message : Type 0 where
  pub role : String
  pub content : Content
  pub timestamp_utc : Option ℕ
  pub tool_calls : List ToolCall
  pub tool_call_id : Option String
  pub reasoning : Option String
  pub origin : String
  pub provider_data : Fields

unfoldable pub is_user_authored : Message → Bool
is_user_authored m =
    m.role == "user" && contains ("conversation" ∷ "user_interaction" ∷ []) m.origin

-- `{key: value}` if the value is given, and nothing otherwise
abbrev pub field_if : String → Option Json → Fields → Fields
field_if key none rest = rest
field_if key (some v) rest = field key v rest

abbrev is_text_part : ContentPart → Bool
is_text_part (text_part _) = true
is_text_part _ = false

-- `"".join(part.text for part in parts)` for parts that are all texts
abbrev joined : List ContentPart → String
joined [] = ""
joined (text_part s ∷ ps) = str_append s (joined ps)
joined (_ ∷ ps) = joined ps

abbrev part_to_dict : ContentPart → Fields
part_to_dict (text_part s) = field "type" (string "text") (field "text" (string s) end)
part_to_dict (image_part path mime filename size) = field "type" (string "image") (
    field "path" (string path) (
      field "filename" (string filename)
        (field "mime_type" (string mime) (field "size_bytes" (number size) end))))
part_to_dict (file_part path filename mime size) = field "type" (string "file") (
    field "path" (string path) (
      field "filename" (string filename)
        (field "mime_type" (string mime) (field "size_bytes" (number size) end))))

unfoldable pub parts_to_items : List ContentPart → Items
parts_to_items [] = nil
parts_to_items (p ∷ ps) = item (object (part_to_dict p)) (parts_to_items ps)

-- `_content_to_dict` on the parts of a message
unfoldable pub content_to_json : List ContentPart → Json
content_to_json [] = null
content_to_json (p ∷ ps) =
    if all is_text_part (p ∷ ps) then string (joined (p ∷ ps)) else array (parts_to_items (p ∷ ps))

abbrev object_json : Option Fields → Option Json
object_json none = none
object_json (some d) = some (object d)

unfoldable pub error_to_dict : ToolError → Fields
error_to_dict e =
    field "type" (string e.type)
      (field "message" (string e.message) (field_if "details" (object_json e.details) end))

abbrev error_json : Option ToolError → Option Json
error_json none = none
error_json (some e) = some (object (error_to_dict e))

-- `ToolCall.to_dict`
unfoldable pub call_to_dict : ToolCall → Fields
call_to_dict c = field "id" (string c.id) (
    field "name" (string c.name)
      (field "arguments" c.arguments (field_if "argument_error" (error_json c.argument_error) end)))

unfoldable pub calls_to_items : List ToolCall → Items
calls_to_items [] = nil
calls_to_items (c ∷ cs) = item (object (call_to_dict c)) (calls_to_items cs)

-- `if message.tool_calls`
abbrev calls_json : List ToolCall → Option Json
calls_json [] = none
calls_json (c ∷ cs) = some (array (calls_to_items (c ∷ cs)))

abbrev pub text_json : Option String → Option Json
text_json none = none
text_json (some s) = some (string s)

abbrev data_json : Fields → Option Json
data_json end = none
data_json (field k v rest) = some (object (field k v rest))

-- `if message.origin != "conversation"`
unfoldable pub origin_fields : String → Fields
origin_fields s = if s == "conversation" then end else field "origin" (string s) end

module _ (python : Python) where
  open python use {format_utc}

  abbrev time_json : Option ℕ → Option Json
  time_json none = none
  time_json (some t) = some (string (format_utc t))

  -- `message_to_dict`
  unfoldable pub message_to_dict : Message → Fields
  message_to_dict m = field "role" (string m.role) (
      field "content" (content_to_json (content_parts m.content)) (
        field_if "timestamp_utc" (time_json m.timestamp_utc) (
          field_if "tool_calls" (calls_json m.tool_calls) (
            field_if "tool_call_id" (text_json m.tool_call_id) (
              field_if "reasoning" (text_json m.reasoning)
                (field_if "provider_data" (data_json m.provider_data) (origin_fields m.origin)))))))
