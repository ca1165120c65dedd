-- ===== src/Context/Projection.antt =====
-- agent_core/projection.py: messages are grouped into units that are kept or archived whole.
pub mod Tiling
pub mod Sound
mod Examples
use nosis.Base.{
  ℕ, suc, zero, ◌+◌, String, Bool, true, false, Option, none, some, List, [], ◌∷◌, ◌++◌, ◌==◌, ◌&&◌,
  ◌||◌, not, contains, length, map, if◌then◌else◌,
}
use nosis.Base.Dict.{find, put}
use nosis.Session.Message.{Message, ToolCall}

pub record ContextUnit : Type 0 where
  pub start : ℕ
  pub end : ℕ
  pub messages : List Message

abbrev has_calls : List ToolCall → Bool
has_calls [] = false
has_calls (c ∷ cs) = true

-- `item.role == "assistant" and item.tool_calls`
unfoldable pub calls_tools : Message → Bool
calls_tools m = m.role == "assistant" && has_calls m.tool_calls

abbrev is_tool_media : Message → Bool
is_tool_media m = m.origin == "tool_media"

-- The condition of the inner loop, on `history[end]`.
unfoldable pub follows : Message → Bool
follows m =
    m.role == "tool"
    || is_tool_media m
    || contains ("user_interaction" ∷ "hook_feedback" ∷ "tool_delivery" ∷ []) m.origin

-- `following.tool_call_id in calls`
abbrev pub answers : List String → Option String → Bool
answers ids none = false
answers ids (some id) = contains ids id

abbrev pub trails : Message → Bool
trails m = is_tool_media m || contains ("user_interaction" ∷ "hook_feedback" ∷ []) m.origin

-- `found[following.tool_call_id] = following`
abbrev pub with_found : Option String → Message → List (String × Message) → List (String × Message)
with_found none m found = found
with_found (some id) m found = put id m found

-- The inner loop: the results, the trailing messages, how many were taken, and what is left.
pub record Batch : Type 0 where
  pub found : List (String × Message)
  pub trailing : List Message
  pub taken : ℕ
  pub rest : List Message

unfoldable pub take_one : List String → Message → Batch → Batch
take_one ids m b =
    if answers ids m.tool_call_id
    then record b { found = with_found m.tool_call_id m b.found; taken = suc b.taken }
    else if trails m
    then record b { trailing = b.trailing ++ m ∷ []; taken = suc b.taken }
    else record b { taken = suc b.taken }

unfoldable pub take_batch : List String → Batch → List Message → Batch
take_batch ids b [] = record b { rest = [] }
take_batch ids b (m ∷ ms) =
    let later = take_batch ids (take_one ids m b) ms in
    if follows m then later else record b { rest = m ∷ ms }

-- `found[call.id]` of each call in order, if every call has a result.
unfoldable pub results_of : List ToolCall → List (String × Message) → Option (List Message)
results_of [] found = some []
results_of (c ∷ cs) found = elim (find c.id found) [
  | none ↦ none
  | some m ↦ elim (results_of cs found) [ none ↦ none | some ms ↦ some (m ∷ ms) ]
]

abbrev pub batch_messages : Message → Batch → Option (List Message) → List Message
batch_messages m b none = []
batch_messages m b (some results) = m ∷ results ++ b.trailing

abbrev pub call_ids : Message → List String
call_ids m = map (λ (c : ToolCall). c.id) m.tool_calls

abbrev pub empty_batch : Batch
empty_batch = record { found = []; trailing = []; taken = 0; rest = [] }

abbrev pub batch_unit : ℕ → Message → Batch → ContextUnit
batch_unit index m b = record {
  start = index;
  end = index + 1 + b.taken;
  messages = batch_messages m b (results_of m.tool_calls b.found);
}

-- A message that calls no tools.
unfoldable pub single_unit : ℕ → Message → ContextUnit
single_unit index m = record {
  start = index;
  end = index + 1;
  messages = if m.role == "tool" || m.origin == "tool_delivery" then [] else m ∷ [];
}

-- The outer loop from `start_index + index`, on what is left of the history. Each round takes a
-- message at least, so that as much fuel as there are messages is enough.
unfoldable pub units_from : (fuel : ℕ) → ℕ → List Message → List ContextUnit
units_from zero index ms = []
units_from (suc fuel) index [] = []
units_from (suc fuel) index (m ∷ ms) =
    let b = take_batch (call_ids m) empty_batch ms in
    let after_batch = units_from fuel (index + 1 + b.taken) b.rest in
    let after_single = units_from fuel (index + 1) ms in
    if calls_tools m then batch_unit index m b ∷ after_batch else single_unit index m ∷ after_single

unfoldable pub project_context_units : ℕ → List Message → List ContextUnit
project_context_units start_index history = units_from (length history) start_index history
