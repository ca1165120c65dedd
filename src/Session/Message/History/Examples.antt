-- ===== src/Session/Message/History/Examples.antt =====
-- agent_core/content.py: a message of two texts, which are stored as one.
use nosis.Base.{◌≡◌, refl, ap, none, [], ◌∷◌, returned}
use nosis.Base.Json.{end}
use nosis.Session.Message.{text_part, Message, parts, content_parts, message_to_dict}
use nosis.Session.Message.Read.{message_from_dict}
use nosis.Session.Message.History.{historical_content, historical_content-message_from_dict}
use nosis.Session.Examples.{python, char_count-strokes}

abbrev two_texts : Message
two_texts = record {
  role = "user";
  content = parts (text_part "read " ∷ text_part "it" ∷ []);
  timestamp_utc = none;
  tool_calls = [];
  tool_call_id = none;
  reasoning = none;
  origin = "conversation";
  provider_data = end;
}

historical_content-message_from_dict_example :
    (read : Message) × (message_from_dict python (message_to_dict python two_texts) ≡ returned read)
    × (historical_content (λ j. "") read.content ≡ historical_content (λ j. "") two_texts.content)
unfolding content_parts
historical_content-message_from_dict_example =
    historical_content-message_from_dict (λ j. "") python
      (λ t. ap (λ n. returned n) (char_count-strokes t)) two_texts (tt, (tt, tt)) refl
