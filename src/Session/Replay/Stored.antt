-- ===== src/Session/Replay/Stored.antt =====
-- agent_core/session.py and agent_core/session_store.py: what the sink has of a journal.
use nosis.Base.{String, Option, none, some, List, [], ◌∷◌, ◌++◌, returned, raised}
use mathlib.Core.List.{append-nil}
use nosis.Base.Json.{Fields, Python}
use nosis.Session.State.{JournalEvent, Session, new_session}
use nosis.Session.Apply.Run.{Applied}
use nosis.Session.Journal.{
  Answer, takes, fails, Moment, Written, emit, append_event, with_applied, write_sink,
}
use nosis.Session.Recovery.{
  Clock, apply_all, applied_all, write_recovered, store_recovered, recover,
}
use nosis.Session.Perform.{Operation, run, without_events}
use nosis.Session.Perform.Runs.{run_keeps}

-- The events of the first list stand in the second in their order, others between them or not.
pub data IsWithin : List JournalEvent → List JournalEvent → Type 0 where
  nothing : IsWithin [] []
  passed : (e : JournalEvent) {es fs : List JournalEvent} → IsWithin es fs → IsWithin es (e ∷ fs)
  taken :
      (e : JournalEvent) {es fs : List JournalEvent} → IsWithin es fs → IsWithin (e ∷ es) (e ∷ fs)

nothing-IsWithin : (fs : List JournalEvent) → IsWithin [] fs
nothing-IsWithin [] = nothing
nothing-IsWithin (f ∷ fs) = passed f (nothing-IsWithin fs)

IsWithin-more :
    {es fs : List JournalEvent} (gs : List JournalEvent) → IsWithin es fs → IsWithin es (fs ++ gs)
IsWithin-more gs nothing = nothing-IsWithin gs
IsWithin-more gs (passed e h) = passed e (IsWithin-more gs h)
IsWithin-more gs (taken e h) = taken e (IsWithin-more gs h)

IsWithin-self : (gs : List JournalEvent) → IsWithin gs gs
IsWithin-self [] = nothing
IsWithin-self (g ∷ gs) = taken g (IsWithin-self gs)

IsWithin-append :
    {es fs : List JournalEvent} (gs : List JournalEvent)
    → IsWithin es fs
    → IsWithin (es ++ gs) (fs ++ gs)
IsWithin-append gs nothing = IsWithin-self gs
IsWithin-append gs (passed e h) = passed e (IsWithin-append gs h)
IsWithin-append gs (taken e h) = taken e (IsWithin-append gs h)

-- There is a sink, and it has the events.
abbrev pub Has : Option (List JournalEvent) → List JournalEvent → Type 0
Has none es = ⊥
Has (some kept) es = IsWithin es kept

abbrev IsStored : Session → Type 0
IsStored s = Has s.stored s.journal

-- A sink that has the journal's events has them with the batch after it took it, and without it if it
-- raised.
abbrev Follows : List JournalEvent → List JournalEvent → Written → Type 0
Follows es batch (raised problem, kept) = Has kept es
Follows es batch (returned value, kept) = Has kept (es ++ batch)

write_sink-Follows :
    (answer : Answer) (batch es : List JournalEvent) (kept : Option (List JournalEvent))
    → Has kept es
    → Follows es batch (write_sink answer batch kept)
unfolding write_sink
write_sink-Follows answer batch es none h = absurd h
write_sink-Follows takes batch es (some kept) h = IsWithin-append batch h
write_sink-Follows (fails written) batch es (some kept) h = IsWithin-more _ h

append_event-IsStored :
    (python : Python) (e : JournalEvent) (written : Written) (s : Session)
    → Follows s.journal (e ∷ []) written
    → IsStored ((append_event python e written s).1)
unfolding append_event with_applied
append_event-IsStored python e (raised problem, kept) s h = h
append_event-IsStored python e (returned value, kept) s h = h

emit-IsStored :
    (python : Python) (m : Moment) (event_type : String) (turn_id : Option String)
    (payload : Fields) (call_id : Option String) (s : Session)
    → IsStored s
    → IsStored ((emit python m event_type turn_id payload call_id s).1)
unfolding emit
emit-IsStored python m event_type turn_id payload call_id s h =
    append_event-IsStored python _ _ s (write_sink-Follows m.answer _ s.journal s.stored h)

write_recovered-Follows :
    (answer : Answer) (batch es : List JournalEvent) (kept : Option (List JournalEvent))
    → Has kept es
    → Follows es batch (write_recovered answer batch kept)
unfolding write_recovered
write_recovered-Follows answer [] es none h = absurd h
write_recovered-Follows answer [] es (some kept) h = rw append-nil h
write_recovered-Follows answer (e ∷ batch) es kept h =
    write_sink-Follows answer (e ∷ batch) es kept h

applied_all-IsStored :
    (es : List JournalEvent) (r : Applied) (s : Session)
    → IsStored s
    → IsStored ((without_events (applied_all es r s)).1)
unfolding applied_all
applied_all-IsStored es (raised problem, s') s h = h
applied_all-IsStored es (returned value, s') s h = h

store_recovered-IsStored :
    (python : Python) (es : List JournalEvent) (written : Written) (s : Session)
    → Follows s.journal es written
    → IsStored ((without_events (store_recovered python es written s)).1)
unfolding store_recovered
store_recovered-IsStored python es (raised problem, kept) s h = h
store_recovered-IsStored python es (returned value, kept) s h =
    applied_all-IsStored es (apply_all python es s.state) _ h

recover-IsStored :
    (python : Python) (clock : Clock) (m : Moment) (s : Session)
    → IsStored s
    → IsStored ((without_events (recover python clock m.answer s)).1)
unfolding recover
recover-IsStored python clock m s h =
    store_recovered-IsStored python _ _ s (write_recovered-Follows m.answer _ s.journal s.stored h)

-- Whatever is called on a new session with a sink, `recover` among it, and whichever calls raise, the
-- sink is there and has every event of the journal, in the journal's order. A batch of which the sink
-- wrote some before it raised may stand between them.
pub run-IsStored :
    (python : Python) (calls : List (Moment × Operation))
    → Has
        (run python calls (new_session (some []))).stored
        (run python calls (new_session (some []))).journal
run-IsStored python calls =
    run_keeps python IsStored (λ c s h. h) (emit-IsStored python) (recover-IsStored python) calls
      (new_session (some [])) nothing
