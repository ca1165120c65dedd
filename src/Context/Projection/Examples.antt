-- ===== src/Context/Projection/Examples.antt =====
-- agent_core/projection.py: a history with two tool calls, answered in the other order, and a turn that
-- was cut short.
use nosis.Base.{◌+◌, ◌≡◌, refl, true, String, none, some, List, [], ◌∷◌, All, length, map}
use nosis.Base.Json.{object, end}
use nosis.Session.Message.{text, ToolCall, Message}
use nosis.Context.Projection.{
  ContextUnit, project_context_units, units_from, single_unit, take_batch, take_one, follows,
  calls_tools, results_of,
}
use nosis.Context.Projection.Tiling.{IsTiling, project_context_units-IsTiling}
use nosis.Context.Projection.Sound.{is_sound, project_context_units-is_sound}

abbrev message : String → String → Message
message role content = record {
  role = role;
  content = text content;
  timestamp_utc = none;
  tool_calls = [];
  tool_call_id = none;
  reasoning = none;
  origin = "conversation";
  provider_data = end;
}

abbrev call : String → ToolCall
call id = record { id = id; name = "read_file"; arguments = object end; argument_error = none }

abbrev result : String → Message
result id = record (message "tool" id) { tool_call_id = some id }

abbrev history : List Message
history =
    message "user" "read both"
    ∷ record (message "assistant" "") { tool_calls = call "a" ∷ call "b" ∷ [] }
    ∷ result "b"
    ∷ result "a"
    ∷ record (message "assistant" "") { tool_calls = call "c" ∷ [] }
    ∷ message "user" "stop"
    ∷ []

shown_lengths :
    map (λ (u : ContextUnit). length u.messages) (project_context_units 0 history)
    ≡ 1 ∷ 3 ∷ 0 ∷ 1 ∷ []
unfolding project_context_units units_from single_unit take_batch take_one follows calls_tools
    results_of
shown_lengths = refl

project_context_units-IsTiling_example :
    IsTiling 7 (7 + length history) (project_context_units 7 history)
project_context_units-IsTiling_example = project_context_units-IsTiling 7 history

project_context_units-is_sound_example :
    All (λ (u : ContextUnit). is_sound u.messages ≡ true) (project_context_units 7 history)
project_context_units-is_sound_example = project_context_units-is_sound 7 history
