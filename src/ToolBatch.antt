-- ===== src/ToolBatch.antt =====
-- agent_core/tool_batch.py: the calls of a batch that are executed one after another.
pub mod Counts
pub mod Paired
mod Examples
use nosis.Base.{ℕ, String, Option, none, some, List, [], ◌∷◌, Result, returned, raised}
use nosis.Base.Json.{PyError, Python, end}
use nosis.Session.Message.{ToolCall, text}
use nosis.Session.State.{Session}
use nosis.Session.Journal.{Moment, Outcome}
use nosis.Session.Operations.{Item, tool_started, tool_finished, add_item}

-- An exception: AgentCancelled, KeyboardInterrupt, or another, with its text.
pub data Failure : Type 0 where
  cancelled : (error : String) → Failure
  interrupted : (error : String) → Failure
  other : (error : String) → Failure

-- `_failure_status`
unfoldable pub failure_status : Failure → String
failure_status (cancelled e) = "cancelled"
failure_status (interrupted e) = "unknown"
failure_status (other e) = "failed"

abbrev pub error_text : Failure → String
error_text (cancelled e) = e
error_text (interrupted e) = e
error_text (other e) = e

-- A call of the batch: what the callbacks, the tool (its error's message if it has one) and the
-- normalizer do, and the clock and the journal at each event.
pub record Run : Type 0 where
  pub call : ToolCall
  pub announced : Result Failure (Unit {0})
  pub executed : Result Failure (Option String)
  pub normalized : Result Failure String
  pub shown : Result Failure (Unit {0})
  pub now : ℕ
  pub at_start : Moment
  pub at_finish : Moment
  pub at_failure : Moment
  pub at_item : Moment

abbrev pub continue_with :
    {A B : Type 0}
    → Result Failure A × Session
    → (A → Session → Result Failure B × Session)
    → Result Failure B × Session
continue_with (raised f, s) next = (raised f, s)
continue_with (returned a, s) next = next a s

-- `explain` is `str` of the session's exception.
module _ (python : Python) (explain : PyError → String) (turn_id : String) where
  abbrev pub of_session : Outcome → Result Failure (Unit {0}) × Session
  of_session (raised e, s) = (raised (other (explain e)), s)
  of_session (returned _, s) = (returned tt, s)

  abbrev finish_status : Option String → String
  finish_status none = "completed"
  finish_status (some message) = "failed"

  -- `_finish_call`
  unfoldable pub finish_call : Moment → ToolCall → Option String → Session → Outcome
  finish_call moment call error s =
      tool_finished python moment call (finish_status error) error (some turn_id) s

  abbrev pub tool_item : ToolCall → (content : String) → (now : ℕ) → Item
  tool_item call content now = record {
    role = "tool";
    content = text content;
    timestamp_utc = some now;
    tool_calls = [];
    tool_call_id = some call.id;
    reasoning = none;
    attachments = [];
    origin = "conversation";
    user_source = "user_input";
    provider_data = end;
  }

  -- `_commit_normalized_result`, but for the text that it returns
  unfoldable pub commit_normalized_result : Run → Session → Result Failure (Unit {0}) × Session
  commit_normalized_result run s =
      continue_with (run.normalized, s)
        (λ content t.
          continue_with
            (of_session (add_item python run.at_item (tool_item run.call content run.now) t))
            (λ _ u. (run.shown, u)))

  -- What is done while the call is the active one.
  unfoldable pub active_part : Run → Session → Result Failure (Unit {0}) × Session
  active_part run s =
      continue_with (of_session (tool_started python run.at_start run.call (some turn_id) s))
        (λ _ t.
          continue_with (run.announced, t)
            (λ _ u.
              continue_with (run.executed, u)
                (λ error v. of_session (finish_call run.at_finish run.call error v))))

  -- The exception is raised again, unless the event cannot be recorded.
  abbrev pub raised_again : Failure → Outcome → Result Failure (Unit {0}) × Session
  raised_again f (raised e, s) = (raised (other (explain e)), s)
  raised_again f (returned _, s) = (raised f, s)

  abbrev pub after_active :
      Run → Result Failure (Unit {0}) × Session → Result Failure (Unit {0}) × Session
  after_active run (raised f, s) = raised_again f (
      tool_finished python run.at_failure run.call (failure_status f) (some (error_text f))
        (some turn_id) s)
  after_active run (returned _, s) = commit_normalized_result run s

  unfoldable pub execute_call : Run → Session → Result Failure (Unit {0}) × Session
  execute_call run s = after_active run (active_part run s)

  -- `_execute_sequentially`
  unfoldable pub execute_sequentially : List Run → Session → Result Failure (Unit {0}) × Session
  execute_sequentially [] s = (returned tt, s)
  execute_sequentially (run ∷ runs) s =
      continue_with (execute_call run s) (λ _ t. execute_sequentially runs t)
