-- ===== src/Session/Replay/Examples.antt =====
-- agent_core/session.py: the journal and the sink of a run.
use nosis.Base.{none, some, List, [], ◌∷◌, ◌++◌}
use nosis.Base.Json.{end}
use nosis.Session.State.{new_session}
use nosis.Session.Perform.{Operation, records_hook, recovers, run}
use nosis.Session.Journal.{Moment, fails}
use nosis.Session.Replay.{IsNumberedFrom, run-IsNumbered}
use nosis.Session.Replay.Stored.{Has, run-IsStored}
use nosis.Session.Examples.{python, at, strokes, turn_calls}

-- A call for which the sink writes the event and raises, and then a recovery.
abbrev calls : List (Moment × Operation)
calls =
    turn_calls
    ++ ((record (at 7) { answer = fails 1 }, records_hook "stopped" end none)
        ∷ (at 8, recovers (λ n. (strokes n, n)))
        ∷ [])

run-IsNumbered_example : IsNumberedFrom 1 (run python calls (new_session (some []))).journal
run-IsNumbered_example = run-IsNumbered python calls (some [])

run-IsStored_example :
    Has
      (run python calls (new_session (some []))).stored
      (run python calls (new_session (some []))).journal
run-IsStored_example = run-IsStored python calls
