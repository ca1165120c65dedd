-- ===== src/Session/Recovery.antt =====
-- agent_core/session.py: `recover`, after a restart: turns, tool executions and jobs that were going on
-- are closed by events of their own.
pub mod Keyed
pub mod Effect
pub mod Settled
use nosis.Base.{
  ℕ, ◌+◌, String, Bool, true, false, Option, none, some, List, [], ◌∷◌, ◌++◌, contains, length,
  if◌then◌else◌, Result, returned, raised,
}
use nosis.Base.Dict.{values}
use nosis.Base.Json.{Json, null, number, string, Fields, end, field, PyError, is_text, Python}
use nosis.Session.State.{JournalEvent, Turn, ToolExecution, JobExecution, Replayed, Session}
use nosis.Session.Apply.Run.{Applied, done}
use nosis.Session.Apply.{apply_event}
use nosis.Session.Journal.{Answer, Written, next_seq, write_sink}

-- `uuid4()` and `datetime.now` for the event with that place among the recovered ones.
abbrev pub Clock : Type 0
Clock = ℕ → String × ℕ

unfoldable pub is_running : Turn → Bool
is_running turn = is_text turn.status "running"

unfoldable pub is_started : ToolExecution → Bool
is_started execution = is_text execution.status "started"

unfoldable pub is_unfinished : JobExecution → Bool
is_unfinished job = contains ("submitted" ∷ "running" ∷ []) job.status

-- A crash has no reliable finish time.
abbrev elapsed_of : Option ℕ → Json
elapsed_of none = number 0
elapsed_of (some _) = null

module _ (clock : Clock) (next : ℕ) where
  unfoldable pub recovered_event :
      ℕ → String → Option String → Option String → Fields → JournalEvent
  recovered_event n event_type turn_id tool_call_id payload = record {
    seq = next + n;
    event_id = (clock n).0;
    event_type = event_type;
    turn_id = turn_id;
    timestamp_utc = (clock n).1;
    tool_call_id = tool_call_id;
    payload = payload;
  }

  abbrev pub turn_recovered : ℕ → Turn → JournalEvent
  turn_recovered n turn =
      recovered_event n "turn_recovered" (some turn.turn_id) none
        (field "status" (string "unknown") end)

  abbrev pub tool_recovered : ℕ → ToolExecution → JournalEvent
  tool_recovered n execution =
      recovered_event n "tool_recovered" execution.turn_id (some execution.tool_call_id)
        (field "status" (string "unknown") end)

  abbrev pub job_interrupted : ℕ → JobExecution → JournalEvent
  job_interrupted n job = recovered_event n "job_interrupted" (some job.turn_id) none (
      field "job_id" (string job.job_id) (
        field "kind" (string job.kind) (
          field "status" (string "interrupted") (
            field "elapsed_seconds" (elapsed_of job.started_at)
              (field "result_summary" null (field "progress" null end))))))

  -- The events of one loop; `n` is the number of the events before.
  unfoldable pub events_for :
      {A : Type 0} → (A → Bool) → (ℕ → A → JournalEvent) → ℕ → List A → List JournalEvent
  events_for lost event n [] = []
  events_for lost event n (a ∷ as') =
      let found = events_for lost event (n + 1) as' in
      let skipped = events_for lost event n as' in if lost a then event n a ∷ found else skipped

  unfoldable pub turn_events : Replayed → List JournalEvent
  turn_events s = events_for is_running turn_recovered 0 (values s.turns)

  unfoldable pub tool_events : Replayed → List JournalEvent
  tool_events s =
      events_for is_started tool_recovered (length (turn_events s)) (values s.tool_executions)

  unfoldable pub job_events : Replayed → List JournalEvent
  job_events s =
      events_for is_unfinished job_interrupted (length (turn_events s) + length (tool_events s))
        (values s.jobs)

  unfoldable pub recovered_events : Replayed → List JournalEvent
  recovered_events s = turn_events s ++ (tool_events s ++ job_events s)

abbrev pub and_apply : Applied → (Replayed → Applied) → Applied
and_apply (raised problem, s) next = (raised problem, s)
and_apply (returned value, s) next = next s

-- `for event in recovered: self.apply_event(event)`
unfoldable pub apply_all : Python → List JournalEvent → Replayed → Applied
apply_all python [] s = done s
apply_all python (e ∷ es) s = and_apply (apply_event python e s) (apply_all python es)

abbrev pub Recovered : Type 0
Recovered = Result PyError (List JournalEvent) × Session

unfoldable pub applied_all : List JournalEvent → Applied → Session → Recovered
applied_all es (raised problem, s') s = (raised problem, record s { state = s' })
applied_all es (returned value, s') s = (returned es, record s { state = s' })

-- `if recovered and self._sink is not None: self._sink(tuple(recovered))`
unfoldable pub write_recovered : Answer → List JournalEvent → Option (List JournalEvent) → Written
write_recovered answer [] kept = (returned tt, kept)
write_recovered answer (e ∷ es) kept = write_sink answer (e ∷ es) kept

unfoldable pub store_recovered : Python → List JournalEvent → Written → Session → Recovered
store_recovered python es (raised problem, kept) s = (raised problem, record s { stored = kept })
store_recovered python es (returned value, kept) s =
    applied_all es (apply_all python es s.state)
      (record s { journal = s.journal ++ es; stored = kept })

-- The sink gets all the events at once, before any of them is applied.
unfoldable pub recover : Python → Clock → Answer → Session → Recovered
recover python clock answer s =
    let es = recovered_events clock (next_seq s.journal) s.state in
    store_recovered python es (write_recovered answer es s.stored) s
