-- ===== src/Session/Examples.antt =====
-- agent_core/session.py: data for the examples of the session's theorems.
use nosis.Base.{ℕ, zero, suc, ◌≡◌, refl, ap, String, none, some, List, [], ◌∷◌, true, returned}
use nosis.Base.Texts.{char_count}
use nosis.Base.Json.{string, object, end, field, Python}
use nosis.Session.Message.{text, file_part, ToolCall}
use nosis.Session.Journal.{Moment, takes}
use nosis.Session.Operations.{Item, TokenUsage}
use nosis.Session.Perform.{Operation, begins, adds, starts_tool, completes_model, submits_job}

-- A time is as many strokes.
abbrev pub strokes : ℕ → String
strokes zero = String.[]
strokes (suc n) = String.◌∷◌ "1" (strokes n)

pub char_count-strokes : (n : ℕ) → char_count (strokes n) ≡ n
char_count-strokes zero = refl
char_count-strokes (suc n) = ap (λ i. suc i) (char_count-strokes n)

abbrev pub python : Python
python = record { format_utc = strokes; parse_utc = λ s. returned (char_count s); repr = λ j. "" }

abbrev pub at : ℕ → Moment
at n = record { event_id = strokes n; fresh_turn_id = strokes n; now = n; answer = takes }

abbrev pub question : Item
question = record {
  role = "user";
  content = text "read it";
  timestamp_utc = some 2;
  tool_calls = [];
  tool_call_id = none;
  reasoning = none;
  attachments = file_part "notes.md" "notes.md" "text/plain" 12 ∷ [];
  origin = "conversation";
  user_source = "user_input";
  provider_data = end;
}

abbrev pub read_call : ToolCall
read_call = record {
  id = "call";
  name = "read_file";
  arguments = object (field "path" (string "notes.md") end);
  argument_error = none;
}

abbrev pub tokens : TokenUsage
tokens = record {
  input_tokens = some 40;
  output_tokens = some 2;
  total_tokens = some 42;
  cache_read_tokens = some 30;
  cache_write_tokens = none;
}

abbrev pub turn_calls : List (Moment × Operation)
turn_calls =
    (at 1, begins (some "turn"))
    ∷ (at 2, adds question)
    ∷ (at 3, completes_model 0 (some tokens) true none)
    ∷ (at 4, starts_tool read_call none)
    ∷ (at 5, submits_job "job" "shell" "turn" end)
    ∷ []
