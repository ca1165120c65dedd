-- ===== src/Session/Load.antt =====
-- agent_core/session_store.py: `_load_unlocked` applies the stored events; what a session did comes back.
mod Examples
use nosis.Base.{
  ◌≡◌, refl, arith, ◌∙◌, ap, String, Bool, true, false, Option, none, some, List, [], ◌∷◌, ◌++◌,
  Result, returned, raised, subst,
}
use nosis.Base.Json.{Fields, PyError, Python}
use nosis.Session.State.{JournalEvent, Replayed, blank, Session, new_session}
use nosis.Session.Apply.{apply_event}
use nosis.Session.Apply.Run.{Applied}
use nosis.Session.Journal.{Moment, Outcome, Written, emit, event_at, append_event, with_applied}
use nosis.Session.Recovery.{Clock, and_apply, apply_all, applied_all, store_recovered, recover}
use nosis.Session.Perform.{Operation, run_all, without_events}
use nosis.Session.Perform.Runs.{run_all_keeps, IfReturned}

-- The loop over the stored events: an exception ends it.
abbrev pub and_load : Applied → (Replayed → Result PyError Replayed) → Result PyError Replayed
and_load (raised problem, s) next = raised problem
and_load (returned value, s) next = next s

unfoldable pub load_events : Python → List JournalEvent → Replayed → Result PyError Replayed
load_events python [] s = returned s
load_events python (e ∷ es) s = and_load (apply_event python e s) (load_events python es)

abbrev step_back : Applied → Result PyError Replayed
step_back (raised problem, s) = raised problem
step_back (returned value, s) = returned s

and_load-then :
    (r : Applied) (f g : Replayed → Result PyError Replayed) (s' : Replayed)
    (back : Result PyError Replayed)
    → ((s : Replayed) → f s ≡ returned s' → g s ≡ back)
    → and_load r f ≡ returned s'
    → and_load r g ≡ back
and_load-then (raised problem, s) f g s' back k h = ground arith
and_load-then (returned value, s) f g s' back k h = k s h

and_load-end : (r : Applied) → and_load r (λ x. returned x) ≡ step_back r
and_load-end (raised problem, s) = refl
and_load-end (returned value, s) = refl

abbrev value_or : Replayed → Result PyError Replayed → Replayed
value_or s (raised problem) = s
value_or s (returned s') = s'

load_events-snoc :
    (python : Python) (es : List JournalEvent) (e : JournalEvent) (s s' : Replayed)
    → load_events python es s ≡ returned s'
    → load_events python (es ++ e ∷ []) s ≡ step_back (apply_event python e s')
unfolding load_events
load_events-snoc python [] e s s' h =
    and_load-end (apply_event python e s)
    ∙ ap (λ r. step_back (apply_event python e (value_or s r))) h
load_events-snoc python (f ∷ es) e s s' h =
    and_load-then (apply_event python f s) (load_events python es)
      (load_events python (es ++ e ∷ [])) s' (step_back (apply_event python e s'))
      (λ s h. load_events-snoc python es e s s' h) h

load_events-append :
    (python : Python) (es fs : List JournalEvent) (s s' : Replayed)
    → load_events python es s ≡ returned s'
    → load_events python (es ++ fs) s ≡ load_events python fs s'
unfolding load_events
load_events-append python [] fs s s' h = ap (λ r. load_events python fs (value_or s r)) h
load_events-append python (e ∷ es) fs s s' h =
    and_load-then (apply_event python e s) (load_events python es) (load_events python (es ++ fs))
      s' (load_events python fs s') (λ s h. load_events-append python es fs s s' h) h

and_load-and_apply :
    (r : Applied) (f : Replayed → Result PyError Replayed) (g : Replayed → Applied)
    → ((s : Replayed) → f s ≡ step_back (g s))
    → and_load r f ≡ step_back (and_apply r g)
and_load-and_apply (raised problem, s) f g k = refl
and_load-and_apply (returned value, s) f g k = k s

-- The loop of `recover` over its events is the loop of a load.
load_events-apply_all :
    (python : Python) (es : List JournalEvent) (s : Replayed)
    → load_events python es s ≡ step_back (apply_all python es s)
unfolding load_events apply_all
load_events-apply_all python [] s = refl
load_events-apply_all python (e ∷ es) s =
    and_load-and_apply (apply_event python e s) (load_events python es) (apply_all python es)
      (load_events-apply_all python es)

-- What is loaded from the journal is the state.
abbrev IsLoadable : Python → Session → Type 0
IsLoadable python s = load_events python s.journal blank ≡ returned s.state

with_applied-IsLoadable :
    (python : Python) (r : Applied) (s : Session)
    → load_events python s.journal blank ≡ step_back r
    → IfReturned python (IsLoadable python) (λ c s h. h) (with_applied r s)
unfolding with_applied
with_applied-IsLoadable python (raised problem, s') s h = tt
with_applied-IsLoadable python (returned value, s') s h = h

append_event-IsLoadable :
    (python : Python) (e : JournalEvent) (written : Written) (s : Session)
    → IsLoadable python s
    → IfReturned python (IsLoadable python) (λ c s h. h) (append_event python e written s)
unfolding append_event
append_event-IsLoadable python e (raised problem, kept) s h = tt
append_event-IsLoadable python e (returned value, kept) s h =
    with_applied-IsLoadable python (apply_event python e s.state) _
      (load_events-snoc python s.journal e blank s.state h)

emit-IsLoadable :
    (python : Python) (m : Moment) (event_type : String) (turn_id : Option String)
    (payload : Fields) (call_id : Option String) (s : Session)
    → IsLoadable python s
    → IfReturned python
        (IsLoadable python)
        (λ c s h. h)
        (emit python m event_type turn_id payload call_id s)
unfolding emit event_at
emit-IsLoadable python m event_type turn_id payload call_id s h =
    append_event-IsLoadable python _ _ s h

applied_all-IsLoadable :
    (python : Python) (es : List JournalEvent) (r : Applied) (s : Session)
    → load_events python s.journal blank ≡ step_back r
    → IfReturned python (IsLoadable python) (λ c s h. h) (without_events (applied_all es r s))
unfolding applied_all
applied_all-IsLoadable python es (raised problem, s') s h = tt
applied_all-IsLoadable python es (returned value, s') s h = h

store_recovered-IsLoadable :
    (python : Python) (es : List JournalEvent) (written : Written) (s : Session)
    → IsLoadable python s
    → IfReturned python
        (IsLoadable python)
        (λ c s h. h)
        (without_events (store_recovered python es written s))
unfolding store_recovered
store_recovered-IsLoadable python es (raised problem, kept) s h = tt
store_recovered-IsLoadable python es (returned value, kept) s h =
    applied_all-IsLoadable python es (apply_all python es s.state) _ (
      load_events-append python s.journal es blank s.state h
      ∙ load_events-apply_all python es s.state)

recover-IsLoadable :
    (python : Python) (clock : Clock) (m : Moment) (s : Session)
    → IsLoadable python s
    → IfReturned python
        (IsLoadable python)
        (λ c s h. h)
        (without_events (recover python clock m.answer s))
unfolding recover
recover-IsLoadable python clock m s h = store_recovered-IsLoadable python _ _ s h

run_all-IsLoadable :
    (python : Python) (calls : List (Moment × Operation)) (sink : Option (List JournalEvent))
    → IfReturned python (IsLoadable python) (λ c s h. h) (run_all python calls (new_session sink))
run_all-IsLoadable python calls sink =
    run_all_keeps python (IsLoadable python) (λ c s h. h) (emit-IsLoadable python)
      (recover-IsLoadable python) calls (new_session sink) (unfold load_events in refl)

-- After any calls on a new session, `recover` among them, of which none raised, the journal is loaded without an error, and
-- the messages, turns, tool executions, jobs, plan, usage, anchors and preset that it gives are those
-- that the session has.
pub load_events-run_all :
    (python : Python) (calls : List (Moment × Operation)) (sink : Option (List JournalEvent))
    (s : Session)
    → run_all python calls (new_session sink) ≡ (returned tt, s)
    → load_events python s.journal blank ≡ returned s.state
load_events-run_all python calls sink s h =
    subst (IfReturned python (IsLoadable python) (λ c s h. h)) h
      (run_all-IsLoadable python calls sink)
