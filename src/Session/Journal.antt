-- ===== src/Session/Journal.antt =====
-- agent_core/session.py: `_event` and the journal. The sink is what stores the events, as
-- session_store.py attaches it; it takes a batch, or raises when it has written some of it.
use nosis.Base.{
  ℕ, zero, suc, ◌+◌, String, Option, none, some, List, [], ◌∷◌, ◌++◌, Result, returned, raised,
}
use nosis.Base.Json.{Fields, PyError, os_error, Python}
use nosis.Session.State.{JournalEvent, Session}
use nosis.Session.Apply.Run.{Applied}
use nosis.Session.Apply.{apply_event}

-- What the sink makes of a batch: it takes it, or raises after so many of the events were written. All
-- of them are if only the update of the metadata fails.
pub data Answer : Type 0 where
  takes : Answer
  fails : (written : ℕ) → Answer

-- What a call reads from outside: `uuid4()` for the event and for a turn, `datetime.now`, and what the
-- sink makes of the batch.
pub record Moment : Type 0 where
  pub event_id : String
  pub fresh_turn_id : String
  pub now : ℕ
  pub answer : Answer

-- The session after a call, and the exception that ended it, if any.
abbrev pub Outcome : Type 0
Outcome = Result PyError (Unit {0}) × Session

-- `self.journal[-1].seq + 1 if self.journal else 1`
unfoldable pub next_seq : List JournalEvent → ℕ
next_seq [] = 1
next_seq (e ∷ []) = e.seq + 1
next_seq (e ∷ f ∷ es) = next_seq (f ∷ es)

abbrev pub first_events : ℕ → List JournalEvent → List JournalEvent
first_events zero es = []
first_events (suc n) [] = []
first_events (suc n) (e ∷ es) = e ∷ first_events n es

-- What the sink returned or raised, and the events that it has then.
abbrev pub Written : Type 0
Written = Result PyError (Unit {0}) × Option (List JournalEvent)

-- `if self._sink is not None: self._sink(events)`
unfoldable pub write_sink : Answer → List JournalEvent → Option (List JournalEvent) → Written
write_sink answer es none = (returned tt, none)
write_sink takes es (some kept) = (returned tt, some (kept ++ es))
write_sink (fails written) es (some kept) =
    (raised os_error, some (kept ++ first_events written es))

unfoldable pub with_applied : Applied → Session → Outcome
with_applied applied s = (applied.0, record s { state = applied.1 })

-- The event is in the sink and in the journal before it is applied.
unfoldable pub append_event : Python → JournalEvent → Written → Session → Outcome
append_event python e (raised problem, kept) s = (raised problem, record s { stored = kept })
append_event python e (returned value, kept) s =
    with_applied (apply_event python e s.state)
      (record s { journal = s.journal ++ e ∷ []; stored = kept })

unfoldable pub event_at :
    Moment → String → Option String → Fields → Option String → Session → JournalEvent
event_at moment event_type turn_id payload tool_call_id s = record {
  seq = next_seq s.journal;
  event_id = moment.event_id;
  event_type = event_type;
  turn_id = turn_id;
  timestamp_utc = moment.now;
  tool_call_id = tool_call_id;
  payload = payload;
}

-- `_event`
unfoldable pub emit :
    Python → Moment → String → Option String → Fields → Option String → Session → Outcome
emit python moment event_type turn_id payload tool_call_id s =
    let e = event_at moment event_type turn_id payload tool_call_id s in
    append_event python e (write_sink moment.answer (e ∷ []) s.stored) s

-- The journal store attaches itself to a session that it has loaded.
unfoldable pub attach_journal_sink : Option (List JournalEvent) → Session → Session
attach_journal_sink sink s = record s { stored = sink }
