-- ===== src/Session/Keyed.antt =====
-- agent_core/session.py: `apply_event` keeps each turn, tool execution and job at its own id.
use nosis.Base.{
  ℕ, length, ◌≡◌, refl, ap, String, Bool, true, false, Option, none, some, not, Result, returned,
  raised, if◌then◌else◌, contains, ◌==◌,
}
use text.Mathlib.Text.{starts_with}
use nosis.Base.Texts.{is_empty}
use nosis.Base.Dict.{find, put}
use nosis.Base.Json.{
  Json, null, boolean, number, string, array, object, Fields, get, PyError, Python, object?, text?,
  require,
}
use nosis.Session.State.{JournalEvent, Turn, ToolExecution, JobExecution, Replayed}
use nosis.Session.Message.{Message, is_user_authored}
use nosis.Session.Apply.Run.{Applied, done, reading, with_text, with_job}
use nosis.Session.Apply.{apply_event, tool_finished_types, job_finished_types}
use nosis.Session.Apply.Messages.{
  apply_message, apply_anchor, apply_completed, apply_usage, add_usage, counts_of, anchor_of,
}
use nosis.Session.Apply.Turns.{
  apply_turn_started, apply_turn, apply_tool_started, apply_tool_finished, apply_tool_recovered,
  recover_execution, known_turn, optional_error, known_execution,
}
use nosis.Session.Apply.Jobs.{apply_job_submitted, apply_job_started, apply_job_finished, known_job}
use nosis.Session.Apply.Context.{apply_archived, apply_preset, apply_plan}
use nosis.Session.Recovery.Keyed.{
  IsWellKeyed, named, any_text, put-IsKeyed, find-IsFoundAt, IsFoundAt,
}

-- The state of a run, whether it raised or not.
abbrev IsKept : Applied → Type 0
IsKept r = IsWellKeyed r.1

reading-kept :
    {A : Type 0} (r : Result PyError A) (s : Replayed) (k : A → Applied)
    → IsWellKeyed s
    → ((a : A) → IsKept (k a))
    → IsKept (reading r s k)
reading-kept (raised e) s k h each = h
reading-kept (returned a) s k h each = each a

with_text-kept :
    (o : Option String) (k : String → Replayed → Applied) (s : Replayed)
    → IsWellKeyed s
    → ((t : String) → named t ≡ true → IsKept (k t s))
    → IsKept (with_text o k s)
with_text-kept none k s h each = h
with_text-kept (some t) k s h each = named_kept (is_empty t) refl
  where
    named_kept : (b : Bool) → is_empty t ≡ b → IsKept (if is_empty t then done s else k t s)
    named_kept true e = rw e h
    named_kept false e = rw e (each t (ap not e))

with_job-kept :
    (o p : Option String) (k : String → String → Replayed → Applied) (s : Replayed)
    → IsWellKeyed s
    → ((t u : String) → IsKept (k t u s))
    → IsKept (with_job o p k s)
with_job-kept none p k s h each = h
with_job-kept (some t) none k s h each = h
with_job-kept (some t) (some u) k s h each = each t u

record Keeps (r : Applied) : Type 0 where
  kept : IsKept r

if-Keeps : (b : Bool) (r q : Applied) → IsKept r → Keeps q → Keeps (if b then r else q)
if-Keeps true r q h k = record { kept = h }
if-Keeps false r q h k = k

if-kept : (b : Bool) (r q : Applied) → IsKept r → IsKept q → IsKept (if b then r else q)
if-kept true r q h k = h
if-kept false r q h k = k

module _ (s : Replayed) (h : IsWellKeyed s) where
  put_turn :
      (k : String) (turn : Turn)
      → turn.turn_id ≡ k
      → named k ≡ true
      → IsWellKeyed (record s { turns = put k turn s.turns })
  put_turn k turn q n = (put-IsKeyed _ named k turn s.turns q n h.0, h.1, h.2)

  put_tool :
      (k : String) (execution : ToolExecution)
      → execution.tool_call_id ≡ k
      → named k ≡ true
      → IsWellKeyed (record s { tool_executions = put k execution s.tool_executions })
  put_tool k execution q n = (h.0, put-IsKeyed _ named k execution s.tool_executions q n h.1, h.2)

  put_job :
      (k : String) (job : JobExecution)
      → job.job_id ≡ k
      → IsWellKeyed (record s { jobs = put k job s.jobs })
  put_job k job q = (h.0, h.1, put-IsKeyed _ any_text k job s.jobs q refl h.2)

  turn_started-kept :
      (e : JournalEvent) (k : String) → named k ≡ true → IsKept (apply_turn_started e k s)
  unfolding apply_turn_started
  turn_started-kept e k n = put_turn k _ refl n

  known_turn-id :
      (k : String) (o : Option Turn)
      → IsFoundAt (λ (t : Turn). t.turn_id) named k o
      → (known_turn k o).turn_id ≡ k
  known_turn-id k none q = refl
  known_turn-id k (some turn) q = q

  turn-kept : (e : JournalEvent) (k : String) → named k ≡ true → IsKept (apply_turn e k s)
  unfolding apply_turn
  turn-kept e k n =
      let own = known_turn-id k (find k s.turns) (find-IsFoundAt _ named k s.turns h.0) in
      reading-kept (optional_error (get "error" e.payload)) _ _ (put_turn k _ own n)
        (λ error. put_turn k _ own n)

  tool_started-kept :
      (python : Python) (e : JournalEvent) (k : String)
      → named k ≡ true
      → IsKept (apply_tool_started python e k s)
  unfolding apply_tool_started
  tool_started-kept python e k n =
      reading-kept (require "arguments" e.payload) s _ h (λ arguments. put_tool k _ refl n)

  known_execution-id :
      (python : Python) (e : JournalEvent) (k : String) (o : Option ToolExecution)
      → IsFoundAt (λ (t : ToolExecution). t.tool_call_id) named k o
      → (known_execution python e k o).tool_call_id ≡ k
  known_execution-id python e k none q = refl
  known_execution-id python e k (some execution) q = q

  found_tool :
      (k : String)
      → IsFoundAt (λ (t : ToolExecution). t.tool_call_id) named k (find k s.tool_executions)
  found_tool k = find-IsFoundAt _ named k s.tool_executions h.1

  tool_finished-kept :
      (python : Python) (e : JournalEvent) (k : String)
      → named k ≡ true
      → IsKept (apply_tool_finished python e k s)
  unfolding apply_tool_finished
  tool_finished-kept python e k n =
      put_tool k _ (known_execution-id python e k (find k s.tool_executions) (found_tool k)) n

  recover_execution-kept :
      (e : JournalEvent) (k : String) (o : Option ToolExecution)
      → named k ≡ true
      → IsFoundAt (λ (t : ToolExecution). t.tool_call_id) named k o
      → IsWellKeyed (recover_execution e k o s)
  unfolding recover_execution
  recover_execution-kept e k none n q = h
  recover_execution-kept e k (some execution) n q = put_tool k _ q n

  tool_recovered-kept :
      (e : JournalEvent) (k : String) → named k ≡ true → IsKept (apply_tool_recovered e k s)
  unfolding apply_tool_recovered
  tool_recovered-kept e k n = recover_execution-kept e k (find k s.tool_executions) n (found_tool k)

  job_submitted-kept :
      (python : Python) (e : JournalEvent) (k t : String)
      → IsKept (apply_job_submitted python e k t s)
  unfolding apply_job_submitted
  job_submitted-kept python e k t = reading-kept (_) s _ h (λ details. put_job k _ refl)

  known_job-id :
      (python : Python) (e : JournalEvent) (k t status : String) (o : Option JobExecution)
      → IsFoundAt (λ (j : JobExecution). j.job_id) any_text k o
      → (known_job python e k t status o).job_id ≡ k
  known_job-id python e k t status none q = refl
  known_job-id python e k t status (some job) q = q

  own_job :
      (python : Python) (e : JournalEvent) (k t status : String)
      → (known_job python e k t status (find k s.jobs)).job_id ≡ k
  own_job python e k t status =
      known_job-id python e k t status (find k s.jobs) (find-IsFoundAt _ any_text k s.jobs h.2)

  job_started-kept :
      (python : Python) (e : JournalEvent) (k t : String)
      → IsKept (apply_job_started python e k t s)
  unfolding apply_job_started
  job_started-kept python e k t = put_job k _ (own_job python e k t "running")

  job_finished-kept :
      (python : Python) (e : JournalEvent) (k t : String)
      → IsKept (apply_job_finished python e k t s)
  unfolding apply_job_finished
  job_finished-kept python e k t =
      let own = own_job python e k t "interrupted" in
      reading-kept (require "elapsed_seconds" e.payload) _ _ (put_job k _ own) (λ elapsed.
        reading-kept (require "result_summary" e.payload) _ _ (put_job k _ own) (λ summary.
          reading-kept (require "progress" e.payload) _ _ (put_job k _ own)
            (λ progress. put_job k _ own)))

  anchor-kept :
      (e : JournalEvent) (o : Option String) (index : ℕ) (m : Message)
      → IsKept (apply_anchor e o index m s)
  unfolding apply_anchor
  anchor-kept e none index m = h
  anchor-kept e (some t) index m =
      if-kept (not (is_user_authored m)) _ _ h (reading-kept _ s _ h (λ source. h))

  usage-kept : (j : Json) → IsKept (apply_usage j s)
  unfolding apply_usage
  usage-kept null = h
  usage-kept (object d) = reading-kept (counts_of d) s _ h (λ counts. added counts.0 counts.1)
    where
      added : (i c : Option ℕ) → IsWellKeyed (add_usage i c s)
      added none none = h
      added none (some c) = h
      added (some i) none = h
      added (some i) (some c) = h
  usage-kept (boolean b) = h
  usage-kept (number n) = h
  usage-kept (string t) = h
  usage-kept (array js) = h

  archived-kept : (e : JournalEvent) → IsKept (apply_archived e s)
  unfolding apply_archived
  archived-kept e = reading-kept _ _ _ h (λ cursor. h)

  preset-kept : (python : Python) (e : JournalEvent) → IsKept (apply_preset python e s)
  unfolding apply_preset
  preset-kept python e = reading-kept _ s _ h (λ preset. h)

  plan-kept : (python : Python) (d : Option Fields) → IsKept (apply_plan python d s)
  unfolding apply_plan
  plan-kept python none = h
  plan-kept python (some d) = reading-kept _ s _ h (λ plan. h)

module _ (s : Replayed) (h : IsWellKeyed s) where
  message-kept :
      (python : Python) (e : JournalEvent) (d : Option Fields) → IsKept (apply_message python e d s)
  unfolding apply_message
  message-kept python e none = h
  message-kept python e (some d) =
      reading-kept _ s _ h (λ m. anchor-kept _ h e e.turn_id (length s.items) m)

  completed-kept : (b : Bool) (e : JournalEvent) → IsKept (apply_completed b e s)
  unfolding apply_completed
  completed-kept false e = reading-kept (_) s _ h (λ usage. usage-kept s h usage)
  completed-kept true e =
      reading-kept (anchor_of (get "input_token_anchor" e.payload)) s _ h (λ anchor.
        let s' = record s { input_token_anchor = anchor } in
        reading-kept (require "usage" e.payload) s' (λ usage. apply_usage usage s') h
          (λ usage. usage-kept s' h usage))

  apply_event-Keeps : (python : Python) (e : JournalEvent) → Keeps (apply_event python e s)
  unfolding apply_event
  apply_event-Keeps python e =
      if-Keeps (e.event_type == "message_appended") _ _
        (message-kept python e (object? (get "message" e.payload)))
        (if-Keeps (e.event_type == "model_completed") _ _ (completed-kept true e) (
          if-Keeps (e.event_type == "compression_completed") _ _ (completed-kept false e) (
            if-Keeps (e.event_type == "turn_started") _ _
              (with_text-kept e.turn_id _ s h (turn_started-kept s h e))
              (if-Keeps (starts_with e.event_type "turn_") _ _
                (with_text-kept e.turn_id _ s h (turn-kept s h e))
                (if-Keeps (e.event_type == "tool_started") _ _
                  (with_text-kept e.tool_call_id _ s h (tool_started-kept s h python e))
                  (if-Keeps (contains tool_finished_types e.event_type) _ _
                    (with_text-kept e.tool_call_id _ s h (tool_finished-kept s h python e))
                    (if-Keeps (e.event_type == "tool_recovered") _ _
                      (with_text-kept e.tool_call_id _ s h (tool_recovered-kept s h e))
                      (if-Keeps (e.event_type == "job_submitted") _ _
                        (with_job-kept (text? (get "job_id" e.payload)) e.turn_id _ s h
                          (job_submitted-kept s h python e))
                        (if-Keeps (e.event_type == "job_started") _ _
                          (with_job-kept (text? (get "job_id" e.payload)) e.turn_id _ s h
                            (job_started-kept s h python e))
                          (if-Keeps (contains job_finished_types e.event_type) _ _
                            (with_job-kept (text? (get "job_id" e.payload)) e.turn_id _ s h
                              (job_finished-kept s h python e))
                            (if-Keeps (e.event_type == "context_archived") _ _ (archived-kept s h e)
                              (if-Keeps (e.event_type == "permission_preset_changed") _ _
                                (preset-kept s h python e)
                                (if-Keeps (e.event_type == "plan_updated") _ _
                                  (plan-kept s h python (object? (get "plan" e.payload)))
                                  (record { kept = h }))))))))))))))

  -- Whatever an event says, and whether it raises or not, each turn, tool execution and job still
  -- stands at its own id.
  pub apply_event-IsWellKeyed :
      (python : Python) (e : JournalEvent) → IsWellKeyed (apply_event python e s).1
  apply_event-IsWellKeyed python e = (apply_event-Keeps python e).kept
