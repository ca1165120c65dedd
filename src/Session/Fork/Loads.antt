-- ===== src/Session/Fork/Loads.antt =====
-- agent_core/session_store.py: the journal of a fork can be loaded.
use nosis.Base.{
  ◌≡◌, subst, Option, none, some, List, [], ◌∷◌, ◌==◌, ◌&&◌, String, Result, returned, raised, IsOk,
  Bool-cases, inl, inr, ◌>>=◌, ◌>>◌,
}
use nosis.Base.Json.{PyError, Python}
use nosis.Session.State.{JournalEvent, Replayed, Session}
use nosis.Session.Apply.Run.{Applied}
use nosis.Session.Apply.{apply_event}
use nosis.Session.Load.{load_events, and_load}
use nosis.Session.Fork.{
  before_turn, event_before, is_turn, fork_events, prefix_of, check_target, event_of,
  editable_user_messages,
}

-- If there is a list, it is loaded without an error.
abbrev PrefixLoads : Python → Replayed → Option (List JournalEvent) → Type 0
PrefixLoads python s none = Unit
PrefixLoads python s (some es) = IsOk (load_events python es s)

event_before-PrefixLoads :
    (python : Python) (e : JournalEvent) (s : Replayed) (es : List JournalEvent)
    (o : Option (List JournalEvent))
    → IsOk (load_events python (e ∷ es) s)
    → ((s' : Replayed) → IsOk (load_events python es s') → PrefixLoads python s' o)
    → PrefixLoads python s (event_before e o)
unfolding load_events
event_before-PrefixLoads python e s es none h k = tt
event_before-PrefixLoads python e s es (some fs) h k = go (apply_event python e s) h
  where
    go :
        (r : Applied)
        → IsOk (and_load r (load_events python es))
        → IsOk (and_load r (load_events python fs))
    go (raised p, s') h' = h'
    go (returned v, s') h' = k s' h'

nothing_loads : (python : Python) (s : Replayed) → IsOk (load_events python [] s)
unfolding load_events
nothing_loads python s = tt

before_turn-PrefixLoads :
    (python : Python) (turn_id : Option String) (es : List JournalEvent) (s : Replayed)
    → IsOk (load_events python es s)
    → PrefixLoads python s (before_turn turn_id es)
unfolding before_turn
before_turn-PrefixLoads python turn_id [] s h = tt
before_turn-PrefixLoads python turn_id (e ∷ es) s h =
    elim (Bool-cases (e.event_type == "turn_started" && is_turn e.turn_id turn_id)) [
      | inl starts ↦ rw starts (nothing_loads python s)
      | inr other ↦ rw other (
          event_before-PrefixLoads python e s es (before_turn turn_id es) h
            (before_turn-PrefixLoads python turn_id es))
    ]

module _ (python : Python) (start : Replayed) where
  abbrev LoadsIfReturned : Result PyError (List JournalEvent) → Type 0
  LoadsIfReturned (raised problem) = Unit
  LoadsIfReturned (returned es) = IsOk (load_events python es start)

  bind-LoadsIfReturned :
      {A : Type 0} (r : Result PyError A) (f : A → Result PyError (List JournalEvent))
      → ((a : A) → LoadsIfReturned (f a))
      → LoadsIfReturned (r >>= f)
  bind-LoadsIfReturned (raised problem) f k = tt
  bind-LoadsIfReturned (returned a) f k = k a

  then-LoadsIfReturned :
      (r : Result PyError (Unit {0})) (next : Result PyError (List JournalEvent))
      → LoadsIfReturned next
      → LoadsIfReturned (r >> next)
  then-LoadsIfReturned (raised problem) next k = tt
  then-LoadsIfReturned (returned a) next k = k

  prefix_of-LoadsIfReturned :
      (o : Option (List JournalEvent)) → PrefixLoads python start o → LoadsIfReturned (prefix_of o)
  prefix_of-LoadsIfReturned none h = tt
  prefix_of-LoadsIfReturned (some es) h = h

  fork_events-LoadsIfReturned :
      (anchor_id : String) (s : Session)
      → IsOk (load_events python s.journal start)
      → LoadsIfReturned (fork_events anchor_id s)
  unfolding fork_events
  fork_events-LoadsIfReturned anchor_id s h =
      bind-LoadsIfReturned (editable_user_messages s) _ (λ targets.
        then-LoadsIfReturned (check_target anchor_id targets) _ (
          bind-LoadsIfReturned (event_of anchor_id s.journal) _ (λ e.
            prefix_of-LoadsIfReturned (before_turn e.turn_id s.journal)
              (before_turn-PrefixLoads python e.turn_id s.journal start h))))

-- If the journal of a session is loaded without an error and the session is forked at a message, then
-- the journal that the fork is given is loaded without an error too.
pub fork_events-loads :
    (python : Python) (start : Replayed) (anchor_id : String) (s : Session) (es : List JournalEvent)
    → IsOk (load_events python s.journal start)
    → fork_events anchor_id s ≡ returned es
    → IsOk (load_events python es start)
fork_events-loads python start anchor_id s es h q =
    subst (LoadsIfReturned python start) q (fork_events-LoadsIfReturned python start anchor_id s h)
