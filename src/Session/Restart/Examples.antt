-- ===== src/Session/Restart/Examples.antt =====
-- agent_core/session.py: a restart in the middle of a turn, with a tool and a job that had not ended.
use nosis.Base.{
  ℕ, ◌≡◌, refl, ◌++◌, String, Option, none, some, List, [], ◌∷◌, Result, returned, raised,
}
use nosis.Base.Json.{string, object, Fields, end, field, PyError}
use nosis.Session.State.{JournalEvent, workspace_access, new_session, blank, Session}
use nosis.Session.Apply.{apply_event}
use nosis.Session.Apply.Turns.{apply_turn_started, apply_tool_started}
use nosis.Session.Apply.Jobs.{apply_job_submitted}
use nosis.Session.Journal.{takes, next_seq, attach_journal_sink}
use nosis.Session.Load.{load_events}
use nosis.Session.Keyed.{apply_event-IsWellKeyed}
use nosis.Session.Recovery.Keyed.{IsWellKeyed}
use nosis.Session.Recovery.{Clock, recover, recovered_events}
use nosis.Session.Recovery.Settled.{IsSettled}
use nosis.Session.Restart.{load, recover-load}
use nosis.Session.Examples.{python, strokes}

abbrev event : ℕ → String → Option String → Fields → JournalEvent
event n event_type call_id payload = record {
  seq = n;
  event_id = strokes n;
  event_type = event_type;
  turn_id = some "turn";
  timestamp_utc = n;
  tool_call_id = call_id;
  payload = payload;
}

abbrev cut_short : List JournalEvent
cut_short =
    event 1 "turn_started" none (field "status" (string "running") end)
    ∷ event 2 "tool_started" (some "call")
        (field "name" (string "read_file") (field "arguments" (object end) end))
    ∷ event 3 "job_submitted" none (
        field "job_id" (string "job")
          (field "kind" (string "shell") (field "details" (object end) end)))
    ∷ []

abbrev clock : Clock
clock n = (strokes n, n)

abbrev session_or : Result PyError Session → Session
session_or (returned s) = s
session_or (raised problem) = new_session none

abbrev restarted : Session
restarted = session_or (load python workspace_access cut_short)

restarted-load : load python workspace_access cut_short ≡ returned restarted
unfolding load load_events apply_event apply_turn_started apply_tool_started apply_job_submitted
restarted-load = refl

recover-load_example :
    let found = recovered_events clock (next_seq restarted.journal) restarted.state in
    let after = recover python clock takes (attach_journal_sink (some cut_short) restarted) in
    (after.0 ≡ returned found)
    × (after.1.journal ≡ restarted.journal ++ found)
    × IsSettled after.1.state
recover-load_example =
    recover-load python clock workspace_access cut_short (some cut_short) restarted restarted-load

apply_event-IsWellKeyed_example :
    IsWellKeyed
      (apply_event python
        (event 1 "turn_started" none (field "status" (string "running") end))
        blank).1
apply_event-IsWellKeyed_example =
    apply_event-IsWellKeyed blank (tt, tt, tt) python
      (event 1 "turn_started" none (field "status" (string "running") end))
