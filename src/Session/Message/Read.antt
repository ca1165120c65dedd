-- ===== src/Session/Message/Read.antt =====
-- agent_core/session.py: `message_from_dict`, and `ToolCall.from_dict` of agent_core/tools/base.py.
-- A value that the code takes unchecked and that is outside its declared type is a `TypeError` here.
use nosis.Base.{
  ℕ, String, Bool, true, false, Option, none, some, List, [], ◌∷◌, contains, leb, if◌then◌else◌,
  Result, returned, raised, ◌>>=◌, ◌>>◌, raise_if,
}
use nosis.Base.Texts.{is_empty}
use nosis.Base.Json.{
  Json, null, number, string, array, object, Items, nil, item, Fields, end, get, field_count,
  PyError, value_error, type_error, require, text?, as_text, as_optional_text, get_or, str, is_text,
  Python,
}
use nosis.Session.Message.{
  ContentPart, text_part, image_part, file_part, Content, absent, text, parts, ToolError, ToolCall,
  Message,
}

-- `isinstance(v, str) and v`
unfoldable pub required_text : String → Option Json → Result PyError String
required_text problem (some (string s)) =
    if is_empty s then raised (value_error problem) else returned s
required_text problem _ = raised (value_error problem)

-- An integer that is no bool. Negative numbers are outside the model's JSON.
unfoldable pub required_size : Option Json → Result PyError ℕ
required_size (some (number n)) = returned n
required_size _ = raised (value_error "attachment size_bytes must be a non-negative integer")

unfoldable pub attachment_of : Bool → Fields → Result PyError ContentPart
attachment_of is_image d = do
  path ← required_text "attachment path must be a non-empty string" (get "path" d)
  filename ← required_text "attachment filename must be a non-empty string" (get "filename" d)
  mime ← required_text "attachment mime_type must be a non-empty string" (get "mime_type" d)
  size ← required_size (get "size_bytes" d)
  returned
      (if is_image then image_part path mime filename size else file_part path filename mime size)

unfoldable pub part_of : (Json → String) → Json → Result PyError ContentPart
part_of repr (object d) =
    let kind = get_or null "type" d in
    if is_text kind "text"
    then returned (text_part (str repr (get_or (string "") "text" d)))
    else if is_text kind "image"
    then attachment_of true d
    else if is_text kind "file"
    then attachment_of false d
    else raised (value_error "unknown message content part type")
part_of repr _ = raised (value_error "message content part must be an object")

unfoldable pub parts_of : (Json → String) → Items → Result PyError (List ContentPart)
parts_of repr nil = returned []
parts_of repr (item j js) = do p ← part_of repr j; ps ← parts_of repr js; returned (p ∷ ps)

unfoldable pub content_of : (Json → String) → Option Json → Result PyError Content
content_of repr none = returned absent
content_of repr (some null) = returned absent
content_of repr (some (string s)) = returned (text s)
content_of repr (some (array js)) = do ps ← parts_of repr js; returned (parts ps)
content_of repr _ = raised type_error

-- `details` of `ToolError(**error)`
abbrev details_of : Option Json → Result PyError (Option Fields)
details_of none = returned none
details_of (some null) = returned none
details_of (some (object d)) = returned (some d)
details_of _ = raised type_error

-- `ToolError(**error)` refuses unknown keys.
unfoldable pub error_of : Option Json → Result PyError (Option ToolError)
error_of none = returned none
error_of (some null) = returned none
error_of (some (object d)) = do
  type ← require "type" d
  type_text ← as_text type
  message ← require "message" d
  message_text ← as_text message
  details ← details_of (get "details" d)
  raise_if (leb 4 (field_count d)) type_error
  returned (some (record { type = type_text; message = message_text; details = details }))
error_of _ = raised type_error

unfoldable pub call_of : Json → Result PyError ToolCall
call_of (object d) = do
  error ← error_of (get "argument_error" d)
  id ← require "id" d
  id_text ← as_text id
  name ← require "name" d
  name_text ← as_text name
  arguments ← require "arguments" d
  returned
      (record { id = id_text; name = name_text; arguments = arguments; argument_error = error })
call_of _ = raised type_error

unfoldable pub calls_of_items : Items → Result PyError (List ToolCall)
calls_of_items nil = returned []
calls_of_items (item j js) = do c ← call_of j; cs ← calls_of_items js; returned (c ∷ cs)

unfoldable pub calls_of : Option Json → Result PyError (List ToolCall)
calls_of none = returned []
calls_of (some (array js)) = calls_of_items js
calls_of _ = raised type_error

abbrev pub origins : List String
origins = "tool_media" ∷ "tool_delivery" ∷ "job_result" ∷ "user_interaction" ∷ "hook_feedback" ∷ []

-- An origin that is not listed becomes "conversation".
unfoldable pub origin_of : Option Json → String
origin_of (some (string s)) = if contains origins s then s else "conversation"
origin_of _ = "conversation"

unfoldable pub data_of : Option Json → Result PyError Fields
data_of none = returned end
data_of (some (object d)) = returned d
data_of _ = raised type_error

module _ (python : Python) where
  open python use {parse_utc, repr}

  unfoldable pub timestamp_of : Option Json → Result PyError (Option ℕ)
  timestamp_of (some (string s)) = do t ← parse_utc s; returned (some t)
  timestamp_of _ = returned none

  unfoldable pub message_from_dict : Fields → Result PyError Message
  message_from_dict d = do
    content ← content_of repr (get "content" d)
    calls ← calls_of (get "tool_calls" d)
    role ← require "role" d
    role_text ← as_text role
    timestamp ← timestamp_of (get "timestamp_utc" d)
    call_id ← as_optional_text (get "tool_call_id" d)
    provider_data ← data_of (get "provider_data" d)
    returned (record {
      role = role_text;
      content = content;
      timestamp_utc = timestamp;
      tool_calls = calls;
      tool_call_id = call_id;
      reasoning = text? (get "reasoning" d);
      origin = origin_of (get "origin" d);
      provider_data = provider_data;
    })
