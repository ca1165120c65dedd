-- ===== src/Session/Planning.antt =====
-- agent_core/plan.py: `PlanManager.update`, which gives a session its next plan.
mod Examples
use nosis.Base.{
  ℕ, ◌+◌, ◌≡◌, refl, subst, sym, arith, ap, String, Bool, true, false, Option, none, some, List, [],
  ◌∷◌, All, not, ◌==◌, Result, returned, raised, if◌then◌else◌, Bool-cases, eq_iff, inl, inr,
}
use nosis.Base.Json.{PyError, object, field, end, Python}
use nosis.Plan.{PlanStep, PlanSnapshot, from_dict, to_dict}
use nosis.Plan.Stored.{IsStep, from_dict-to_dict}
use nosis.Session.State.{JournalEvent, Session}
use nosis.Session.Apply.{apply_event}
use nosis.Session.Apply.Context.{apply_plan}
use nosis.Session.Journal.{
  Moment, takes, Outcome, emit, event_at, append_event, with_applied, write_sink,
}
use nosis.Session.Records.{set_plan}

-- `uuid4()` makes the id of a new plan.
unfoldable pub next_plan : String → Option PlanSnapshot → String → List PlanStep → PlanSnapshot
next_plan fresh_id none goal steps = record {
  plan_id = fresh_id;
  goal = goal;
  revision = 1;
  steps = steps;
}
next_plan fresh_id (some current) goal steps =
    if not (current.goal == goal)
    then record { plan_id = fresh_id; goal = goal; revision = 1; steps = steps }
    else record {
      plan_id = current.plan_id;
      goal = goal;
      revision = current.revision + 1;
      steps = steps;
    }

-- `if self._on_update is not None: self._on_update(snapshot)`
abbrev notified :
    Option (PlanSnapshot → Result PyError (Unit {0})) → PlanSnapshot → Result PyError PlanSnapshot
notified none snapshot = returned snapshot
notified (some on_update) snapshot = elim (on_update snapshot) [
  | raised e ↦ raised e
  | returned _ ↦ returned snapshot
]

abbrev published :
    Option (PlanSnapshot → Result PyError (Unit {0}))
    → PlanSnapshot
    → Outcome
    → Result PyError PlanSnapshot × Session
published on_update snapshot (raised e, s) = (raised e, s)
published on_update snapshot (returned _, s) = (notified on_update snapshot, s)

-- `PlanManager.update`; the callback does not touch the session.
unfoldable pub update :
    Python
    → Moment
    → (fresh_id : String) → Option (PlanSnapshot → Result PyError (Unit {0}))
    → (goal : String) → List PlanStep
    → Session
    → Result PyError PlanSnapshot × Session
update python moment fresh_id on_update goal steps s =
    let snapshot = next_plan fresh_id s.plan goal steps in
    published on_update snapshot (set_plan python moment snapshot s)

applied_plan :
    (python : Python) (snapshot : PlanSnapshot) (s : Session)
    → All IsStep snapshot.steps
    → apply_plan python (some (to_dict snapshot)) s.state
      ≡ (returned tt, record s.state { plan = some snapshot })
unfolding apply_plan
applied_plan python snapshot s h = rw (from_dict-to_dict python.repr snapshot h) refl

-- What a stored plan event does.
abbrev HasPlan : PlanSnapshot → Outcome → Type 0
HasPlan snapshot r = (r.0 ≡ returned tt) × (r.1.plan ≡ some snapshot)

append_plan :
    (python : Python) (moment : Moment) (snapshot : PlanSnapshot) (s : Session)
    (kept : Option (List JournalEvent))
    → All IsStep snapshot.steps
    → let e =
        event_at moment "plan_updated" none (field "plan" (object (to_dict snapshot)) end) none s in
      HasPlan snapshot (append_event python e (write_sink takes (e ∷ []) kept) s)
unfolding event_at append_event with_applied write_sink apply_event
append_plan python moment snapshot s none h = rw (applied_plan python snapshot s h) (refl, refl)
append_plan python moment snapshot s (some es) h =
    rw (applied_plan python snapshot s h) (refl, refl)

set_plan-HasPlan :
    (python : Python) (moment : Moment) (snapshot : PlanSnapshot) (s : Session)
    → moment.answer ≡ takes
    → All IsStep snapshot.steps
    → HasPlan snapshot (set_plan python moment snapshot s)
unfolding set_plan emit event_at
set_plan-HasPlan python moment snapshot s h k =
    rw h (append_plan python moment snapshot s s.stored k)

-- What plan a call must give, by the plan before it: with the same goal the same id and the next
-- revision, and otherwise a fresh id and revision 1.
abbrev pub Continues : String → Option PlanSnapshot → PlanSnapshot → Type 0
Continues fresh_id none p = (p.plan_id ≡ fresh_id) × (p.revision ≡ 1)
Continues fresh_id (some current) p =
    (current.goal ≡ p.goal → (p.plan_id ≡ current.plan_id) × (p.revision ≡ current.revision + 1))
    × (¬ (current.goal ≡ p.goal) → (p.plan_id ≡ fresh_id) × (p.revision ≡ 1))

abbrev pub IsNext :
    String → Option PlanSnapshot → (goal : String) → List PlanStep → PlanSnapshot → Type 0
IsNext fresh_id before goal steps p =
    (p.goal ≡ goal) × (p.steps ≡ steps) × Continues fresh_id before p

next_plan-IsNext :
    (fresh_id : String) (o : Option PlanSnapshot) (goal : String) (steps : List PlanStep)
    → IsNext fresh_id o goal steps (next_plan fresh_id o goal steps)
unfolding next_plan
next_plan-IsNext fresh_id none goal steps = (refl, refl, (refl, refl))
next_plan-IsNext fresh_id (some current) goal steps = elim (Bool-cases (current.goal == goal)) [
  | inl same ↦
      rw same
        (refl, refl, ((λ e. (refl, refl)), λ n. absurd (n ((eq_iff current.goal goal).0 same))))
  | inr other ↦ rw other (
    refl,
    refl,
    ((λ e. absurd (ground (arith, other, (eq_iff current.goal goal).1 e))), λ n. (refl, refl)),
  )
]

published-HasPlan :
    (snapshot : PlanSnapshot) (r : Outcome)
    → HasPlan snapshot r
    → ((published none snapshot r).0 ≡ returned snapshot)
      × ((published none snapshot r).1.plan ≡ some snapshot)
published-HasPlan snapshot (raised e, s) h = (ground (arith, h.0), h.1)
published-HasPlan snapshot (returned value, s) h = (refl, h.1)

-- With validated steps, a sink that takes the event and no callback, `update` returns a plan of the
-- goal and the steps, which is the session's plan afterwards. If the plan before it had this goal, it
-- has that plan's id and the next revision, and otherwise the fresh id and revision 1.
pub update-returns :
    (python : Python) (moment : Moment) (fresh_id goal : String) (steps : List PlanStep)
    (s : Session)
    → moment.answer ≡ takes
    → All IsStep steps
    → (p : PlanSnapshot) × ((update python moment fresh_id none goal steps s).0 ≡ returned p)
      × ((update python moment fresh_id none goal steps s).1.plan ≡ some p)
      × IsNext fresh_id s.plan goal steps p
unfolding update
update-returns python moment fresh_id goal steps s h k =
    let p : PlanSnapshot = next_plan fresh_id s.plan goal steps in
    let next = next_plan-IsNext fresh_id s.plan goal steps in
    let done =
      published-HasPlan p _
        (set_plan-HasPlan python moment p s h (subst (All IsStep) (sym next.1) k)) in
    (p, done.0, done.1, next)
