-- ===== src/Session/Restart.antt =====
-- agent_core/session_store.py: `_load_unlocked` with `recover`, a session after a restart.
mod Examples
use nosis.Base.{
  ◌≡◌, refl, ap, subst, arith, true, String, Option, none, some, List, [], ◌∷◌, ◌++◌, Result,
  returned, raised,
}
use nosis.Base.Json.{PyError, Python}
use nosis.Session.State.{JournalEvent, PermissionPreset, Replayed, blank, Session}
use nosis.Session.Apply.Run.{Applied}
use nosis.Session.Apply.{apply_event}
use nosis.Session.Journal.{takes, next_seq, attach_journal_sink}
use nosis.Session.Load.{load_events, and_load}
use nosis.Session.Keyed.{apply_event-IsWellKeyed}
use nosis.Session.Recovery.{Clock, recover, recovered_events}
use nosis.Session.Recovery.Keyed.{IsWellKeyed}
use nosis.Session.Recovery.Settled.{IsSettled, recover_settles}

-- The session that `_load_unlocked` makes from the stored events, before it recovers. The preset is
-- that of the metadata.
abbrev loaded : List JournalEvent → Result PyError Replayed → Result PyError Session
loaded es (raised problem) = raised problem
loaded es (returned s) =
    returned (record { state = s; journal = es; stored = none; current_turn_id = none })

unfoldable pub load : Python → PermissionPreset → List JournalEvent → Result PyError Session
load python preset es =
    loaded es (load_events python es (record blank { permission_preset = preset }))

abbrev IsKeptBy : Result PyError Replayed → Type 0
IsKeptBy (raised problem) = Unit
IsKeptBy (returned s) = IsWellKeyed s

and_load-kept :
    (r : Applied) (next : Replayed → Result PyError Replayed)
    → IsWellKeyed r.1
    → ((s : Replayed) → IsWellKeyed s → IsKeptBy (next s))
    → IsKeptBy (and_load r next)
and_load-kept (raised problem, s) next h k = tt
and_load-kept (returned value, s) next h k = k s h

load_events-kept :
    (python : Python) (es : List JournalEvent) (s : Replayed)
    → IsWellKeyed s
    → IsKeptBy (load_events python es s)
unfolding load_events
load_events-kept python [] s h = h
load_events-kept python (e ∷ es) s h =
    and_load-kept (apply_event python e s) (load_events python es)
      (apply_event-IsWellKeyed s h python e) (load_events-kept python es)

abbrev state_or : Replayed → Result PyError Session → Replayed
state_or s (raised problem) = s
state_or s (returned s') = s'.state

loaded-kept :
    (es : List JournalEvent) (r : Result PyError Replayed) (s : Session)
    → IsKeptBy r
    → loaded es r ≡ returned s
    → IsWellKeyed s.state
loaded-kept es (raised problem) s h q = ground arith
loaded-kept es (returned s') s h q = subst IsWellKeyed (ap (state_or s') q) h

-- Whatever the journal of a session holds, if it is loaded without an error and a sink that takes
-- events is attached, then `recover` returns and appends to the journal events after which no turn is
-- running, no tool execution is started and no job is submitted or running.
pub recover-load :
    (python : Python) (clock : Clock) (preset : PermissionPreset) (es : List JournalEvent)
    (sink : Option (List JournalEvent)) (s : Session)
    → load python preset es ≡ returned s
    → let found = recovered_events clock (next_seq s.journal) s.state in
      let after = recover python clock takes (attach_journal_sink sink s) in
      (after.0 ≡ returned found) × (after.1.journal ≡ s.journal ++ found) × IsSettled after.1.state
unfolding load attach_journal_sink
recover-load python clock preset es sink s h =
    recover_settles python clock (record s { stored = sink })
      (loaded-kept es _ s
        (load_events-kept python es (record blank { permission_preset = preset }) (tt, tt, tt)) h)
