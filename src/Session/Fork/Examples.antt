-- ===== src/Session/Fork/Examples.antt =====
-- agent_core/session_store.py: a session of two turns is forked at the message of the second.
use nosis.Base.{ℕ, ◌≡◌, refl, ap, String, none, some, List, [], ◌∷◌, returned}
use nosis.Base.Json.{string, object, Fields, end, field}
use nosis.Session.Message.{text}
use nosis.Session.State.{JournalEvent, Session, UserAnchor, new_session, blank}
use nosis.Session.Fork.{
  fork_events, editable_user_messages, latest_input, event_of, before_turn, event_to_dict,
  event_from_dict, event_from_dict-event_to_dict,
}
use nosis.Session.Fork.Point.{IsForkPoint, fork_events-IsForkPoint}
use nosis.Session.Examples.{python, char_count-strokes, strokes}

abbrev event : ℕ → String → String → Fields → JournalEvent
event n event_type turn_id payload = record {
  seq = n;
  event_id = strokes n;
  event_type = event_type;
  turn_id = some turn_id;
  timestamp_utc = n;
  tool_call_id = none;
  payload = payload;
}

abbrev first_turn : List JournalEvent
first_turn =
    event 1 "turn_started" "one" (field "status" (string "running") end)
    ∷ event 2 "turn_completed" "one" (field "status" (string "completed") end)
    ∷ []

abbrev asked : JournalEvent
asked = event 4 "message_appended" "two" (
    field "message" (object (field "role" (string "user") (field "content" (string "hi") end))) end)

abbrev both_turns : List JournalEvent
both_turns =
    event 1 "turn_started" "one" (field "status" (string "running") end)
    ∷ event 2 "turn_completed" "one" (field "status" (string "completed") end)
    ∷ event 3 "turn_started" "two" (field "status" (string "running") end)
    ∷ asked
    ∷ []

abbrev anchor : UserAnchor
anchor = record {
  turn_id = "two";
  content = text "hi";
  timestamp_utc = 4;
  source = "user_input";
  item_index = 0;
}

abbrev asked_twice : Session
asked_twice = record (new_session none) {
  state = record blank { user_anchors = anchor ∷ [] };
  journal = both_turns;
}

fork_asked_twice : fork_events (strokes 4) asked_twice ≡ returned first_turn
unfolding fork_events editable_user_messages latest_input event_of before_turn
fork_asked_twice = refl

fork_events-IsForkPoint_example : IsForkPoint (strokes 4) asked_twice first_turn
fork_events-IsForkPoint_example =
    fork_events-IsForkPoint (strokes 4) asked_twice first_turn fork_asked_twice

event_from_dict-event_to_dict_example :
    event_from_dict python (event_to_dict python asked) ≡ returned asked
event_from_dict-event_to_dict_example =
    event_from_dict-event_to_dict python (λ t. ap (λ n. returned n) (char_count-strokes t)) asked
