-- ===== src/Session/Recovery/Settled.antt =====
-- agent_core/session.py: after `recover` nothing goes on.
use nosis.Base.{
  ℕ, ◌+◌, ◌≡◌, refl, length, sym, ◌∙◌, subst, ap, arith, String, Bool, false, Option, none, some,
  List, [], ◌∷◌, ◌++◌, ◌&&◌, ◌||◌, not, any, returned, raised, Bool-cases, inl, inr,
}
use mathlib.Core.Path.{fun_ext}
use mathlib.Core.List.{append-nil}
use nosis.Base.Dict.{values}
use nosis.Base.Json.{Python}
use nosis.Session.State.{JournalEvent, Replayed, Session}
use nosis.Session.Apply.Run.{Applied}
use nosis.Session.Apply.{apply_event}
use nosis.Session.Journal.{takes, next_seq, write_sink}
use nosis.Session.Recovery.{
  Clock, is_running, is_started, is_unfinished, events_for, turn_events, tool_events, job_events,
  recovered_events, and_apply, apply_all, recover, store_recovered, applied_all, write_recovered,
}
use nosis.Session.Recovery.Keyed.{IsWellKeyed, named, any_text, find-hits}
use nosis.Session.Recovery.Effect.{
  Effect, nowhere, turn_running, tool_running, job_running, turn_key, tool_key, job_key,
  turn_recovered-Effect, tool_recovered-Effect, job_interrupted-Effect,
}

abbrev either : (String → Bool) → (String → Bool) → String → Bool
either f g k = f k || g k

closes_both : (a b c d e : Bool) → d ≡ (not a && c) → e ≡ (not b && d) → e ≡ (not (a || b) && c)
closes_both a b c d e h k = ground (arith, h, k)

and_apply-returned :
    (r : Applied) (next : Replayed → Applied) → r.0 ≡ returned tt → and_apply r next ≡ next r.1
and_apply-returned (raised problem, s) next h = ground arith
and_apply-returned (returned value, s) next h = refl

-- A session in which nothing goes on.
abbrev pub IsSettled : Replayed → Type 0
IsSettled s =
    ((k : String) → turn_running s k ≡ false)
    × ((k : String) → tool_running s k ≡ false)
    × ((k : String) → job_running s k ≡ false)

module _ (python : Python) where
  done-Effect : Effect (apply_all python []) nowhere nowhere nowhere
  unfolding apply_all
  done-Effect = record {
    returns = λ s. refl;
    turns = λ s k. refl;
    tools = λ s k. refl;
    jobs = λ s k. refl;
  }

  Effect-then :
      {f g : Replayed → Applied} {t u j t' u' j' : String → Bool}
      → Effect f t u j
      → Effect g t' u' j'
      → Effect (λ s. and_apply (f s) g) (either t t') (either u u') (either j j')
  Effect-then {f = f} {g = g} ef eg = record {
    returns = λ s. rw (and_apply-returned (f s) g (ef.returns s)) (eg.returns _);
    turns = λ s k.
        rw (and_apply-returned (f s) g (ef.returns s))
          (closes_both _ _ _ _ _ (ef.turns s k) (eg.turns _ k));
    tools = λ s k.
        rw (and_apply-returned (f s) g (ef.returns s))
          (closes_both _ _ _ _ _ (ef.tools s k) (eg.tools _ k));
    jobs = λ s k.
        rw (and_apply-returned (f s) g (ef.returns s))
          (closes_both _ _ _ _ _ (ef.jobs s k) (eg.jobs _ k));
  }

  and_apply_assoc :
      (r : Applied) (f g : Replayed → Applied)
      → and_apply r (λ s. and_apply (f s) g) ≡ and_apply (and_apply r f) g
  and_apply_assoc (raised problem, s) f g = refl
  and_apply_assoc (returned value, s) f g = refl

  apply_all-append :
      (es fs : List JournalEvent) (s : Replayed)
      → apply_all python (es ++ fs) s ≡ and_apply (apply_all python es s) (apply_all python fs)
  unfolding apply_all
  apply_all-append [] fs s = refl
  apply_all-append (e ∷ es) fs s =
      ap (and_apply (apply_event python e s)) (fun_ext (apply_all-append es fs))
      ∙ and_apply_assoc (apply_event python e s) (apply_all python es) (apply_all python fs)

  Effect-append :
      (es fs : List JournalEvent) {t u j t' u' j' : String → Bool}
      → Effect (apply_all python es) t u j
      → Effect (apply_all python fs) t' u' j'
      → Effect (apply_all python (es ++ fs)) (either t t') (either u u') (either j j')
  Effect-append es fs {t} {u} {j} {t'} {u'} {j'} ef eg =
      subst (λ f. Effect f (either t t') (either u u') (either j j'))
        (sym (fun_ext (apply_all-append es fs))) (Effect-then ef eg)

  events_for-Effect :
      {A : Type 0} (clock : Clock) (next : ℕ) (lost : A → Bool) (event : ℕ → A → JournalEvent)
      (t u j : A → String → Bool)
      → ((n : ℕ) (a : A) → Effect (apply_event python (event n a)) (t a) (u a) (j a))
      → (n : ℕ) (vs : List A)
      → Effect
          (apply_all python (events_for clock next lost event n vs))
          (λ k. any (λ a. lost a && t a k) vs)
          (λ k. any (λ a. lost a && u a k) vs)
          (λ k. any (λ a. lost a && j a k) vs)
  unfolding events_for apply_all
  events_for-Effect clock next lost event t u j each n [] = done-Effect
  events_for-Effect clock next lost event t u j each n (a ∷ vs) = elim (Bool-cases (lost a)) [
    | inl found ↦
        rw found
          (Effect-then (each n a) (events_for-Effect clock next lost event t u j each (n + 1) vs))
    | inr other ↦ rw other (events_for-Effect clock next lost event t u j each n vs)
  ]

  abbrev hit {ℓ} : {A : Type ℓ} → (A → Bool) → (A → String → Bool) → List A → String → Bool
  hit lost key vs k = any (λ v. lost v && key v k) vs

  abbrev no_key {ℓ} : {A : Type ℓ} → A → String → Bool
  no_key a = nowhere

  module _ (clock : Clock) (next : ℕ) (s : Replayed) where
    turn_events-Effect :
        Effect
          (apply_all python (turn_events clock next s))
          (hit is_running turn_key (values s.turns))
          (hit is_running no_key (values s.turns))
          (hit is_running no_key (values s.turns))
    unfolding turn_events
    turn_events-Effect =
        events_for-Effect clock next is_running _ turn_key no_key no_key
          (turn_recovered-Effect python clock next) 0 (values s.turns)

    tool_events-Effect :
        Effect
          (apply_all python (tool_events clock next s))
          (hit is_started no_key (values s.tool_executions))
          (hit is_started tool_key (values s.tool_executions))
          (hit is_started no_key (values s.tool_executions))
    unfolding tool_events
    tool_events-Effect =
        events_for-Effect clock next is_started _ no_key tool_key no_key
          (tool_recovered-Effect python clock next) (length (turn_events clock next s))
          (values s.tool_executions)

    job_events-Effect :
        Effect
          (apply_all python (job_events clock next s))
          (hit is_unfinished no_key (values s.jobs))
          (hit is_unfinished no_key (values s.jobs))
          (hit is_unfinished job_key (values s.jobs))
    unfolding job_events
    job_events-Effect =
        events_for-Effect clock next is_unfinished _ no_key no_key job_key
          (job_interrupted-Effect python clock next)
          (length (turn_events clock next s) + length (tool_events clock next s)) (values s.jobs)

    recovered_events-Effect :
        Effect
          (apply_all python (recovered_events clock next s))
          (either (hit is_running turn_key (values s.turns)) (
            either
              (hit is_started no_key (values s.tool_executions))
              (hit is_unfinished no_key (values s.jobs))))
          (either (hit is_running no_key (values s.turns)) (
            either
              (hit is_started tool_key (values s.tool_executions))
              (hit is_unfinished no_key (values s.jobs))))
          (either (hit is_running no_key (values s.turns)) (
            either
              (hit is_started no_key (values s.tool_executions))
              (hit is_unfinished job_key (values s.jobs))))
    unfolding recovered_events
    recovered_events-Effect =
        Effect-append _ _ turn_events-Effect
          (Effect-append _ _ tool_events-Effect job_events-Effect)

    turns_settled :
        IsWellKeyed s
        → (k : String)
        → turn_running (apply_all python (recovered_events clock next s) s).1 k ≡ false
    unfolding turn_key
    turns_settled h k =
        let found = find-hits _ named is_running k s.turns h.0 in
        recovered_events-Effect.turns s k ∙ ground (arith, found)

    tools_settled :
        IsWellKeyed s
        → (k : String)
        → tool_running (apply_all python (recovered_events clock next s) s).1 k ≡ false
    unfolding tool_key
    tools_settled h k =
        let found = find-hits _ named is_started k s.tool_executions h.1 in
        recovered_events-Effect.tools s k ∙ ground (arith, found)

    jobs_settled :
        IsWellKeyed s
        → (k : String)
        → job_running (apply_all python (recovered_events clock next s) s).1 k ≡ false
    unfolding job_key
    jobs_settled h k =
        let found = find-hits _ any_text is_unfinished k s.jobs h.2 in
        recovered_events-Effect.jobs s k ∙ ground (arith, found)

-- What the sink has after it took the events.
abbrev with_events : List JournalEvent → Option (List JournalEvent) → Option (List JournalEvent)
with_events es none = none
with_events es (some kept) = some (kept ++ es)

module _ (python : Python) (clock : Clock) where
  applied_all-returns :
      (es : List JournalEvent) (r : Applied) (s : Session)
      → r.0 ≡ returned tt
      → applied_all es r s ≡ (returned es, record s { state = r.1 })
  unfolding applied_all
  applied_all-returns es (raised problem, s') s h = ground arith
  applied_all-returns es (returned value, s') s h = refl

  write_recovered-takes :
      (es : List JournalEvent) (kept : Option (List JournalEvent))
      → write_recovered takes es kept ≡ (returned tt, with_events es kept)
  unfolding write_recovered write_sink
  write_recovered-takes [] none = refl
  write_recovered-takes [] (some kept) = ap (λ es. (returned tt, some es)) (sym (append-nil kept))
  write_recovered-takes (e ∷ es) none = refl
  write_recovered-takes (e ∷ es) (some kept) = refl

  -- Where each turn, tool execution and job stands at its own id and the sink takes the events,
  -- `recover` returns the events that it made, which are at the end of the journal, and after it no
  -- turn is running, no tool execution is started and no job is submitted or running.
  pub recover_settles :
      (s : Session)
      → IsWellKeyed s.state
      → let es = recovered_events clock (next_seq s.journal) s.state in
        ((recover python clock takes s).0 ≡ returned es)
        × ((recover python clock takes s).1.journal ≡ s.journal ++ es)
        × IsSettled (recover python clock takes s).1.state
  unfolding recover store_recovered
  recover_settles s h =
      let es = recovered_events clock (next_seq s.journal) s.state in
      let e = recovered_events-Effect python clock (next_seq s.journal) s.state in
      rw
        (
          write_recovered-takes es s.stored,
          applied_all-returns es (apply_all python es s.state)
              (record s { journal = s.journal ++ es; stored = with_events es s.stored })
              (e.returns s.state),
        )
        (
          refl,
          refl,
          (
            turns_settled python clock (next_seq s.journal) s.state h,
            tools_settled python clock (next_seq s.journal) s.state h,
            jobs_settled python clock (next_seq s.journal) s.state h,
          ),
        )
