-- ===== src/Session/Replay.antt =====
-- agent_core/session.py: a journal is numbered.
pub mod Stored
mod Examples
use nosis.Base.{
  ℕ, ◌+◌, ◌≡◌, refl, arith, sym, String, Bool, Option, List, [], ◌∷◌, ◌++◌, returned, raised,
  length, subst, Bool-cases, inl, inr,
}
use nosis.Base.Dict.{values}
use nosis.Base.Json.{Fields, Python}
use nosis.Session.State.{JournalEvent, Replayed, Session, new_session}
use nosis.Session.Apply.Run.{Applied}
use nosis.Session.Journal.{Moment, Written, emit, event_at, append_event, with_applied, next_seq}
use nosis.Session.Recovery.{
  Clock, is_running, is_started, is_unfinished, events_for, recovered_event, turn_events,
  tool_events, job_events, recovered_events, apply_all, applied_all, store_recovered, recover,
}
use nosis.Session.Perform.{Operation, run, without_events}
use nosis.Session.Perform.Runs.{run_keeps}

-- The numbers count up by one from `n`.
abbrev pub IsNumberedFrom : ℕ → List JournalEvent → Type 0
IsNumberedFrom n [] = Unit
IsNumberedFrom n (e ∷ es) = (e.seq ≡ n) × IsNumberedFrom (n + 1) es

next_seq-IsNumberedFrom :
    (n : ℕ) (e : JournalEvent) (es : List JournalEvent)
    → IsNumberedFrom n (e ∷ es)
    → next_seq (e ∷ es) ≡ n + 1 + length es
unfolding next_seq
next_seq-IsNumberedFrom n e [] h = omega (arith, h.0)
next_seq-IsNumberedFrom n e (f ∷ es) h = omega (arith, next_seq-IsNumberedFrom (n + 1) f es h.1)

next_seq-length : (es : List JournalEvent) → IsNumberedFrom 1 es → next_seq es ≡ 1 + length es
next_seq-length [] h = unfold next_seq in refl
next_seq-length (e ∷ es) h = omega (arith, next_seq-IsNumberedFrom 1 e es h)

IsNumberedFrom-append :
    (n : ℕ) (xs ys : List JournalEvent)
    → IsNumberedFrom n xs
    → IsNumberedFrom (n + length xs) ys
    → IsNumberedFrom n (xs ++ ys)
IsNumberedFrom-append n [] ys h k = subst (λ i. IsNumberedFrom i ys) (omega arith) k
IsNumberedFrom-append n (x ∷ xs) ys h k = (
  h.0,
  IsNumberedFrom-append (n + 1) xs ys h.1 (subst (λ i. IsNumberedFrom i ys) (omega arith) k),
)

abbrev pub IsNumbered : Session → Type 0
IsNumbered s = IsNumberedFrom 1 s.journal

append_event-IsNumbered :
    (python : Python) (e : JournalEvent) (written : Written) (s : Session)
    → e.seq ≡ 1 + length s.journal
    → IsNumbered s
    → IsNumbered ((append_event python e written s).1)
unfolding append_event with_applied
append_event-IsNumbered python e (raised problem, kept) s q h = h
append_event-IsNumbered python e (returned value, kept) s q h =
    IsNumberedFrom-append 1 s.journal (e ∷ []) h (q, tt)

emit-IsNumbered :
    (python : Python) (m : Moment) (event_type : String) (turn_id : Option String)
    (payload : Fields) (call_id : Option String) (s : Session)
    → IsNumbered s
    → IsNumbered ((emit python m event_type turn_id payload call_id s).1)
unfolding emit event_at
emit-IsNumbered python m event_type turn_id payload call_id s h =
    append_event-IsNumbered python _ _ s (next_seq-length s.journal h) h

module _ (clock : Clock) (next : ℕ) where
  events_for-IsNumbered :
      {A : Type 0} (lost : A → Bool) (event : ℕ → A → JournalEvent)
      → ((n : ℕ) (a : A) → (event n a).seq ≡ next + n)
      → (n : ℕ) (as' : List A) → IsNumberedFrom (next + n) (events_for clock next lost event n as')
  unfolding events_for
  events_for-IsNumbered lost event k n [] = tt
  events_for-IsNumbered lost event k n (a ∷ as') = elim (Bool-cases (lost a)) [
    | inl found ↦
        let rest = events_for-IsNumbered lost event k (n + 1) as' in
        rw found (
          k n a,
          subst (λ i. IsNumberedFrom i (events_for clock next lost event (n + 1) as')) (omega arith)
              rest,
        )
    | inr other ↦ rw other (events_for-IsNumbered lost event k n as')
  ]

  recovered_events-IsNumbered : (s : Replayed) → IsNumberedFrom next (recovered_events clock next s)
  unfolding recovered_events turn_events tool_events job_events recovered_event
  recovered_events-IsNumbered s =
      let turns = turn_events clock next s in
      let tools = tool_events clock next s in
      IsNumberedFrom-append next turns (tools ++ job_events clock next s)
        (subst (λ i. IsNumberedFrom i turns) (omega arith)
          (events_for-IsNumbered is_running _ (λ n a. refl) 0 (values s.turns)))
        (IsNumberedFrom-append (next + length turns) tools (job_events clock next s)
          (events_for-IsNumbered is_started _ (λ n a. refl) (length turns)
            (values s.tool_executions))
          (subst (λ i. IsNumberedFrom i (job_events clock next s)) (omega arith)
            (events_for-IsNumbered is_unfinished _ (λ n a. refl) (length turns + length tools)
              (values s.jobs))))

applied_all-journal :
    (es : List JournalEvent) (r : Applied) (s : Session)
    → (without_events (applied_all es r s)).1.journal ≡ s.journal
unfolding applied_all
applied_all-journal es (raised problem, s') s = refl
applied_all-journal es (returned value, s') s = refl

store_recovered-IsNumbered :
    (python : Python) (es : List JournalEvent) (written : Written) (s : Session)
    → IsNumberedFrom (1 + length s.journal) es
    → IsNumbered s
    → IsNumbered ((without_events (store_recovered python es written s)).1)
unfolding store_recovered
store_recovered-IsNumbered python es (raised problem, kept) s q h = h
store_recovered-IsNumbered python es (returned value, kept) s q h =
    subst (IsNumberedFrom 1) (sym (applied_all-journal es (apply_all python es s.state) _))
      (IsNumberedFrom-append 1 s.journal es h q)

recover-IsNumbered :
    (python : Python) (clock : Clock) (m : Moment) (s : Session)
    → IsNumbered s
    → IsNumbered ((without_events (recover python clock m.answer s)).1)
unfolding recover
recover-IsNumbered python clock m s h =
    store_recovered-IsNumbered python _ _ s
      (subst (λ i. IsNumberedFrom i (recovered_events clock (next_seq s.journal) s.state))
        (next_seq-length s.journal h)
        (recovered_events-IsNumbered clock (next_seq s.journal) s.state))
      h

-- Whatever is called on a new session, `recover` among it, and whichever calls raise, its journal is
-- numbered 1, 2, 3 and so on without a gap.
pub run-IsNumbered :
    (python : Python) (calls : List (Moment × Operation)) (sink : Option (List JournalEvent))
    → IsNumberedFrom 1 (run python calls (new_session sink)).journal
run-IsNumbered python calls sink =
    run_keeps python IsNumbered (λ c s h. h) (emit-IsNumbered python) (recover-IsNumbered python)
      calls (new_session sink) tt
