-- ===== src/Session/Recovery/Effect.antt =====
-- agent_core/session.py: what an event of `recover` closes.
use nosis.Base.{
  ℕ, ◌≡◌, refl, String, Bool, false, Option, none, some, ◌==◌, ◌&&◌, not, returned, if◌then◌else◌,
  Bool-cases, inl, inr,
}
use nosis.Base.Texts.{is_empty}
use nosis.Base.Dict.{find}
use nosis.Base.Json.{Python}
use nosis.Session.State.{JournalEvent, Turn, ToolExecution, JobExecution, Replayed}
use nosis.Session.Apply.Run.{Applied, done}
use nosis.Session.Apply.{apply_event}
use nosis.Session.Apply.Turns.{apply_turn, apply_tool_recovered, recover_execution}
use nosis.Session.Apply.Jobs.{apply_job_finished}
use nosis.Session.Recovery.{
  Clock, is_running, is_started, is_unfinished, recovered_event, turn_recovered, tool_recovered,
  job_interrupted,
}
use nosis.Session.Recovery.Keyed.{some_has, put-closes, absent-closed}

abbrev pub turn_running : Replayed → String → Bool
turn_running s k = some_has is_running (find k s.turns)

abbrev pub tool_running : Replayed → String → Bool
tool_running s k = some_has is_started (find k s.tool_executions)

abbrev pub job_running : Replayed → String → Bool
job_running s k = some_has is_unfinished (find k s.jobs)

abbrev pub nowhere : String → Bool
nowhere k = false

-- A step that never raises and after which the keys of the tests are those of nothing that goes on.
pub record Effect (step : Replayed → Applied) (turn tool job : String → Bool) : Type 0 where
  pub returns : (s : Replayed) → (step s).0 ≡ returned tt
  pub turns :
      (s : Replayed) (k : String) → turn_running (step s).1 k ≡ (not (turn k) && turn_running s k)
  pub tools :
      (s : Replayed) (k : String) → tool_running (step s).1 k ≡ (not (tool k) && tool_running s k)
  pub jobs :
      (s : Replayed) (k : String) → job_running (step s).1 k ≡ (not (job k) && job_running s k)

unfoldable pub turn_key : Turn → String → Bool
turn_key turn k = not (is_empty turn.turn_id) && turn.turn_id == k

unfoldable pub tool_key : ToolExecution → String → Bool
tool_key execution k = not (is_empty execution.tool_call_id) && execution.tool_call_id == k

unfoldable pub job_key : JobExecution → String → Bool
job_key job k = job.job_id == k

module _ (python : Python) (clock : Clock) (next : ℕ) where
  turn_recovered-some :
      (n : ℕ) (turn : Turn) (s : Replayed)
      → apply_event python (turn_recovered clock next n turn) s ≡ (
          if is_empty turn.turn_id
          then done s
          else apply_turn (turn_recovered clock next n turn) turn.turn_id s)
  unfolding apply_event recovered_event
  turn_recovered-some n turn s = refl

  apply_turn-turns :
      (n : ℕ) (turn : Turn) (s : Replayed) (k : String)
      → turn_running (apply_turn (turn_recovered clock next n turn) turn.turn_id s).1 k
        ≡ (not (turn.turn_id == k) && turn_running s k)
  unfolding apply_turn recovered_event is_running
  apply_turn-turns n turn s k = put-closes is_running turn.turn_id k _ s.turns refl

  pub turn_recovered-Effect :
      (n : ℕ) (turn : Turn)
      → Effect
          (apply_event python (turn_recovered clock next n turn))
          (turn_key turn)
          nowhere
          nowhere
  unfolding turn_key apply_turn recovered_event
  turn_recovered-Effect n turn = elim (Bool-cases (is_empty turn.turn_id)) [
    | inl unnamed ↦ record {
      returns = λ s. rw (turn_recovered-some n turn s, unnamed) refl;
      turns = λ s k. rw (turn_recovered-some n turn s, unnamed) refl;
      tools = λ s k. rw (turn_recovered-some n turn s, unnamed) refl;
      jobs = λ s k. rw (turn_recovered-some n turn s, unnamed) refl;
    }
    | inr named ↦ record {
      returns = λ s. rw (turn_recovered-some n turn s, named) refl;
      turns = λ s k. rw (turn_recovered-some n turn s, named) (apply_turn-turns n turn s k);
      tools = λ s k. rw (turn_recovered-some n turn s, named) refl;
      jobs = λ s k. rw (turn_recovered-some n turn s, named) refl;
    }
  ]

  tool_recovered-some :
      (n : ℕ) (execution : ToolExecution) (s : Replayed)
      → apply_event python (tool_recovered clock next n execution) s ≡ (
          if is_empty execution.tool_call_id
          then done s
          else apply_tool_recovered
              (tool_recovered clock next n execution)
              execution.tool_call_id
              s)
  unfolding apply_event recovered_event
  tool_recovered-some n execution s = refl

  recover_execution-tools :
      (e : JournalEvent) (call_id : String) (found : Option ToolExecution) (s : Replayed)
      (k : String)
      → found ≡ find call_id s.tool_executions
      → tool_running (recover_execution e call_id found s) k
        ≡ (not (call_id == k) && tool_running s k)
  unfolding recover_execution is_started
  recover_execution-tools e call_id none s k h =
      absent-closed is_started call_id k s.tool_executions h
  recover_execution-tools e call_id (some execution) s k h =
      put-closes is_started call_id k _ s.tool_executions refl

  recover_execution-rest :
      (e : JournalEvent) (call_id : String) (found : Option ToolExecution) (s : Replayed)
      → ((recover_execution e call_id found s).turns ≡ s.turns)
        × ((recover_execution e call_id found s).jobs ≡ s.jobs)
  unfolding recover_execution
  recover_execution-rest e call_id none s = (refl, refl)
  recover_execution-rest e call_id (some execution) s = (refl, refl)

  pub tool_recovered-Effect :
      (n : ℕ) (execution : ToolExecution)
      → Effect
          (apply_event python (tool_recovered clock next n execution))
          nowhere
          (tool_key execution)
          nowhere
  unfolding tool_key apply_tool_recovered recovered_event
  tool_recovered-Effect n execution = elim (Bool-cases (is_empty execution.tool_call_id)) [
    | inl unnamed ↦ record {
      returns = λ s. rw (tool_recovered-some n execution s, unnamed) refl;
      turns = λ s k. rw (tool_recovered-some n execution s, unnamed) refl;
      tools = λ s k. rw (tool_recovered-some n execution s, unnamed) refl;
      jobs = λ s k. rw (tool_recovered-some n execution s, unnamed) refl;
    }
    | inr named ↦ record {
      returns = λ s. rw (tool_recovered-some n execution s, named) refl;
      turns = λ s k.
          rw (tool_recovered-some n execution s, named)
            (rw ((recover_execution-rest _ execution.tool_call_id _ s).0) refl);
      tools = λ s k.
          rw (tool_recovered-some n execution s, named)
            (recover_execution-tools _ execution.tool_call_id _ s k refl);
      jobs = λ s k.
          rw (tool_recovered-some n execution s, named)
            (rw ((recover_execution-rest _ execution.tool_call_id _ s).1) refl);
    }
  ]

  pub job_interrupted-Effect :
      (n : ℕ) (job : JobExecution)
      → Effect (apply_event python (job_interrupted clock next n job)) nowhere nowhere (job_key job)
  unfolding job_key apply_event apply_job_finished recovered_event is_unfinished
  job_interrupted-Effect n job = record {
    returns = λ s. refl;
    turns = λ s k. refl;
    tools = λ s k. refl;
    jobs = λ s k. put-closes is_unfinished job.job_id k _ s.jobs refl;
  }
