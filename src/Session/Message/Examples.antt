-- ===== src/Session/Message/Examples.antt =====
-- agent_core/session.py: a message that is stored and read back.
use nosis.Base.{◌≡◌, refl, ap, none, some, [], ◌∷◌, returned}
use nosis.Base.Json.{string, end, field}
use nosis.Session.Message.{text_part, image_part, parts, content_parts, Message, message_to_dict}
use nosis.Session.Message.Read.{message_from_dict}
use nosis.Session.Message.Stored.{stored_content, message_from_dict-message_to_dict}
use nosis.Session.Examples.{python, read_call, char_count-strokes}

abbrev answer : Message
answer = record {
  role = "assistant";
  content = parts (text_part "here" ∷ image_part "a.png" "image/png" "a.png" 7 ∷ []);
  timestamp_utc = some 5;
  tool_calls = read_call ∷ [];
  tool_call_id = none;
  reasoning = some "first read";
  origin = "conversation";
  provider_data = field "id" (string "r1") end;
}

message_from_dict-message_to_dict_example :
    message_from_dict python (message_to_dict python answer)
    ≡ returned (record answer { content = stored_content (content_parts answer.content) })
unfolding content_parts
message_from_dict-message_to_dict_example =
    message_from_dict-message_to_dict python (λ t. ap (λ n. returned n) (char_count-strokes t))
      answer (tt, ((refl, refl, refl), tt)) refl
