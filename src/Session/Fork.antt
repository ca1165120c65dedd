-- ===== src/Session/Fork.antt =====
-- agent_core/session_store.py: `_event_to_dict`, `_event_from_dict`, and the journal of a fork.
pub mod Point
mod Loads
mod Examples
use nosis.Base.{
  ℕ, zero, suc, ◌≡◌, refl, ap, arith, ◌∙◌, String, Bool, true, false, Option, none, some, List, [],
  ◌∷◌, ◌==◌, ◌&&◌, filter, if◌then◌else◌, Result, returned, raised, ◌>>=◌, ◌>>◌,
}
use nosis.Base.Json.{
  Json, null, number, string, object, Fields, end, field, get, PyError, value_error, index_error,
  stop_iteration, type_error, require, text?, as_number, optional_text, str, Python,
}
use nosis.Session.State.{JournalEvent, UserAnchor, Session}
use nosis.Session.Message.Stored.{ReadsBack}

-- `dict(data.get("payload") or {})`
abbrev payload_of : Option Json → Result PyError Fields
payload_of none = returned end
payload_of (some null) = returned end
payload_of (some (object d)) = returned d
payload_of _ = raised type_error

module _ (python : Python) where
  open python use {format_utc, parse_utc, repr}

  unfoldable pub event_to_dict : JournalEvent → Fields
  event_to_dict e = field "seq" (number e.seq) (
      field "event_id" (string e.event_id) (
        field "event_type" (string e.event_type) (
          field "turn_id" (optional_text e.turn_id) (
            field "timestamp_utc" (string (format_utc e.timestamp_utc)) (
              field "tool_call_id" (optional_text e.tool_call_id)
                (field "payload" (object e.payload) end))))))

  -- A sequence number that is no number is a `TypeError` here.
  unfoldable pub event_from_dict : Fields → Result PyError JournalEvent
  event_from_dict d = do
    seq_json ← require "seq" d
    seq ← as_number seq_json
    event_id ← require "event_id" d
    event_type ← require "event_type" d
    timestamp ← require "timestamp_utc" d
    t ← parse_utc (str repr timestamp)
    payload ← payload_of (get "payload" d)
    returned (record {
      seq = seq;
      event_id = str repr event_id;
      event_type = str repr event_type;
      turn_id = text? (get "turn_id" d);
      timestamp_utc = t;
      tool_call_id = text? (get "tool_call_id" d);
      payload = payload;
    })

  text?-optional_text : (o : Option String) → text? (some (optional_text o)) ≡ o
  text?-optional_text none = refl
  text?-optional_text (some s) = refl

  -- A stored event is read back as it was, if times are.
  pub event_from_dict-event_to_dict :
      ReadsBack python → (e : JournalEvent) → event_from_dict (event_to_dict e) ≡ returned e
  unfolding event_from_dict event_to_dict
  event_from_dict-event_to_dict law e =
      rw (law e.timestamp_utc, text?-optional_text e.turn_id, text?-optional_text e.tool_call_id)
        refl

abbrev nth {ℓ} : {A : Type ℓ} → List A → ℕ → Option A
nth [] n = none
nth (x ∷ xs) zero = some x
nth (x ∷ xs) (suc n) = nth xs n

abbrev message_events : List JournalEvent → List JournalEvent
message_events es = filter (λ e. e.event_type == "message_appended") es

-- The first of the reversed anchors that is an input.
unfoldable pub latest_input : List UserAnchor → Option UserAnchor
latest_input [] = none
latest_input (a ∷ anchors) = elim (latest_input anchors) [
  | some later ↦ some later
  | none ↦ if a.source == "user_input" then some a else none
]

abbrev is_turn : Option String → Option String → Bool
is_turn none none = true
is_turn none (some t) = false
is_turn (some s) none = false
is_turn (some s) (some t) = s == t

-- An anchor id and an item index.
abbrev target_of : UserAnchor → Option JournalEvent → Result PyError (List (String × ℕ))
target_of a none = raised index_error
target_of a (some e) =
    if is_turn e.turn_id (some a.turn_id)
    then returned ((e.event_id, a.item_index) ∷ [])
    else raised (value_error "user anchor does not match its Journal event")

abbrev targets_of : List JournalEvent → Option UserAnchor → Result PyError (List (String × ℕ))
targets_of journal none = returned []
targets_of journal (some a) = target_of a (nth (message_events journal) a.item_index)

unfoldable pub editable_user_messages : Session → Result PyError (List (String × ℕ))
editable_user_messages s = targets_of s.journal (latest_input s.user_anchors)

unfoldable pub event_of : String → List JournalEvent → Result PyError JournalEvent
event_of anchor_id [] = raised stop_iteration
event_of anchor_id (e ∷ es) = if e.event_id == anchor_id then returned e else event_of anchor_id es

abbrev event_before : JournalEvent → Option (List JournalEvent) → Option (List JournalEvent)
event_before e none = none
event_before e (some es) = some (e ∷ es)

-- `source.journal[:turn_start]`, for the first event that starts the turn
unfoldable pub before_turn : Option String → List JournalEvent → Option (List JournalEvent)
before_turn turn_id [] = none
before_turn turn_id (e ∷ es) =
    if e.event_type == "turn_started" && is_turn e.turn_id turn_id
    then some []
    else event_before e (before_turn turn_id es)

abbrev check_target : String → List (String × ℕ) → Result PyError (Unit {0})
check_target anchor_id [] = raised (value_error "editable user message does not exist")
check_target anchor_id ((t, index) ∷ ts) =
    if t == anchor_id
    then returned tt
    else raised (value_error "editable user message does not exist")

abbrev prefix_of : Option (List JournalEvent) → Result PyError (List JournalEvent)
prefix_of none = raised (value_error "editable user message has no turn boundary")
prefix_of (some es) = returned es

-- The events that `fork_session` gives to the new session.
unfoldable pub fork_events : String → Session → Result PyError (List JournalEvent)
fork_events anchor_id s = do
  targets ← editable_user_messages s
  check_target anchor_id targets
  anchor_event ← event_of anchor_id s.journal
  prefix_of (before_turn anchor_event.turn_id s.journal)
