-- ===== src/Session/Perform/Runs.antt =====
-- agent_core/session.py: what runs of operations keep.
use nosis.Base.{String, Option, List, [], ◌∷◌, returned, raised}
use nosis.Base.Json.{Fields, Python}
use nosis.Session.State.{Session}
use nosis.Session.Journal.{Moment, Outcome, emit}
use nosis.Session.Operations.{then_current}
use nosis.Session.Recovery.{Clock, recover}
use nosis.Session.Perform.{Operation, perform, run, run_all, and_then, without_events}
use nosis.Session.Perform.Keeps.{perform_keeps}

module _ (python : Python) (P : Session → Type 0)
    (current_keeps : (c : Option String) (s : Session)
      → P s
      → P (record s { current_turn_id = c })) where
  then_keeps : (c : Option String) (r : Outcome) → P r.1 → P ((then_current c r).1)
  unfolding then_current
  then_keeps c (raised problem, s) p = p
  then_keeps c (returned value, s) p = current_keeps c s p

  -- What every event keeps, raised or not, every run keeps.
  pub run_keeps :
      ((m : Moment) (event_type : String) (turn_id : Option String) (payload : Fields)
          (call_id : Option String) (s : Session)
        → P s
        → P ((emit python m event_type turn_id payload call_id s).1))
      → ((clock : Clock) (m : Moment) (s : Session)
          → P s
          → P ((without_events (recover python clock m.answer s)).1))
      → (calls : List (Moment × Operation)) (s : Session) → P s
      → P (run python calls s)
  unfolding run
  run_keeps emit_keeps recover_keeps [] s p = p
  run_keeps emit_keeps recover_keeps ((m, o) ∷ calls) s p =
      run_keeps emit_keeps recover_keeps calls _
        (perform_keeps python P (λ r. P r.1) emit_keeps recover_keeps then_keeps (λ s p. p) m o s p)

  abbrev pub IfReturned : Outcome → Type 0
  IfReturned (raised problem, s) = Unit
  IfReturned (returned value, s) = P s

  then_returned : (c : Option String) (r : Outcome) → IfReturned r → IfReturned (then_current c r)
  unfolding then_current
  then_returned c (raised problem, s) p = tt
  then_returned c (returned value, s) p = current_keeps c s p

  and_then_returned :
      (r : Outcome) (next : Session → Outcome)
      → IfReturned r
      → ((s : Session) → P s → IfReturned (next s))
      → IfReturned (and_then python r next)
  and_then_returned (raised problem, s) next p k = tt
  and_then_returned (returned value, s) next p k = k s p

  -- What every event keeps that does not raise, every run keeps that does not raise.
  pub run_all_keeps :
      ((m : Moment) (event_type : String) (turn_id : Option String) (payload : Fields)
          (call_id : Option String) (s : Session)
        → P s
        → IfReturned (emit python m event_type turn_id payload call_id s))
      → ((clock : Clock) (m : Moment) (s : Session)
          → P s
          → IfReturned (without_events (recover python clock m.answer s)))
      → (calls : List (Moment × Operation)) (s : Session) → P s
      → IfReturned (run_all python calls s)
  unfolding run_all
  run_all_keeps emit_keeps recover_keeps [] s p = p
  run_all_keeps emit_keeps recover_keeps ((m, o) ∷ calls) s p =
      and_then_returned (perform python m o s) (run_all python calls)
        (perform_keeps python P IfReturned emit_keeps recover_keeps then_returned (λ s p. p) m o s
          p)
        (λ s' p'. run_all_keeps emit_keeps recover_keeps calls s' p')
