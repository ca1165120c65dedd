-- ===== src/Schedule/Service/Due.antt =====
-- agent_core/scheduler.py: which schedules are due, told apart from the loop that collects them.
use nosis.Base.{
  ℕ, ◌≤◌, ◌≡◌, refl, arith, ◌∙◌, ap, String, true, Option, none, some, List, [], ◌∷◌, map, leb,
  leb→le, ge→leb, ◌&&◌, Bool-cases, ◌⊎◌, inl, inr,
}
use nosis.Schedule.Trigger.{Schedule, ScheduledRun}
use nosis.Schedule.Occurrence.{missed}
use nosis.Schedule.Service.Poll.{Due, due_at, collect_due}

-- What a run is of: the schedule's name and session, and the time.
abbrev pub run_target : ScheduledRun → String × String × ℕ
run_target r = (r.schedule_id, r.session_id, r.scheduled_for)

abbrev pub due_target : Due → String × String × ℕ
due_target d = (d.schedule.schedule_id, d.schedule.schedule_session_id, d.scheduled_for)

-- The schedule is due, and for that time.
abbrev pub IsDue : ℕ → Schedule → ℕ → Type 0
IsDue now s t = (s.enabled ≡ true) × (s.next_run_at ≡ some t) × (t ≤ now)

-- The runs are those of the schedules that are due, one for each, in order.
pub data RunsOf (now : ℕ) : List Schedule → List ScheduledRun → Type 0 where
  finished : RunsOf now [] []
  not_due :
      (s : Schedule) {ss : List Schedule} {rs : List ScheduledRun}
      → ((t : ℕ) → ¬ IsDue now s t)
      → RunsOf now ss rs
      → RunsOf now (s ∷ ss) rs
  due :
      (s : Schedule) (r : ScheduledRun) {ss : List Schedule} {rs : List ScheduledRun}
      → r.schedule_id ≡ s.schedule_id
      → r.session_id ≡ s.schedule_session_id
      → IsDue now s r.scheduled_for
      → RunsOf now ss rs
      → RunsOf now (s ∷ ss) (r ∷ rs)

IsDue-of :
    (now : ℕ) (s : Schedule) (o : Option ℕ)
    → s.next_run_at ≡ o
    → ((t : ℕ) × IsDue now s t) ⊎ ((t : ℕ) → ¬ IsDue now s t)
IsDue-of now s none e = inr (λ t d. ground (arith, e, d.1))
IsDue-of now s (some t) e = elim (Bool-cases s.enabled) [
  | inr off ↦ inr (λ t' d. ground (arith, off, d.0))
  | inl on ↦ elim (Bool-cases (leb t now)) [
    | inl early ↦ inl (t, (on, e, leb→le t now early))
    | inr late ↦ inr (λ t' d. ground (arith, late, e, d.1, d.2))
  ]
]

pub IsDue-cases : (now : ℕ) (s : Schedule) → ((t : ℕ) × IsDue now s t) ⊎ ((t : ℕ) → ¬ IsDue now s t)
IsDue-cases now s = IsDue-of now s s.next_run_at refl

not_collected-of :
    (now : ℕ) (s : Schedule) (o : Option ℕ) (rest : List Due)
    → s.next_run_at ≡ o
    → ((t : ℕ) → ¬ IsDue now s t)
    → due_at now s o rest ≡ rest
not_collected-of now s none rest e n = refl
not_collected-of now s (some t) rest e n = elim (Bool-cases (s.enabled && leb t now)) [
  | inr off ↦ rw off refl
  | inl on ↦ absurd (n t (ground (arith, on), e, ground (arith, on)))
]

pub not_collected :
    (now : ℕ) (s : Schedule) (ss : List Schedule)
    → ((t : ℕ) → ¬ IsDue now s t)
    → collect_due now (s ∷ ss) ≡ collect_due now ss
unfolding collect_due
not_collected now s ss n = not_collected-of now s s.next_run_at (collect_due now ss) refl n

pub collected :
    (now : ℕ) (s : Schedule) (ss : List Schedule) (t : ℕ)
    → IsDue now s t
    → collect_due now (s ∷ ss)
      ≡ record { schedule = s; scheduled_for = t; reason = missed s.trigger t now }
        ∷ collect_due now ss
unfolding collect_due
collected now s ss t d = rw (d.1, d.0, ge→leb t now d.2) refl

cons-parts : {A : Type 0} {x y : A} {xs ys : List A} → (x ∷ xs) ≡ (y ∷ ys) → (x ≡ y) × (xs ≡ ys)
cons-parts h = (cc, cc)

due-RunsOf :
    (now : ℕ) (s : Schedule) (ss : List Schedule) (t : ℕ) (rs : List ScheduledRun)
    → ((rs : List ScheduledRun)
        → map run_target rs ≡ map due_target (collect_due now ss)
        → RunsOf now ss rs)
    → IsDue now s t
    → map run_target rs
      ≡ (s.schedule_id, s.schedule_session_id, t) ∷ map due_target (collect_due now ss)
    → RunsOf now (s ∷ ss) rs
due-RunsOf now s ss t [] rest d e = absurd (ground (arith, e))
due-RunsOf now s ss t (r ∷ rs) rest d e =
    let parts = cons-parts e in
    let time : r.scheduled_for ≡ t = ap (λ p. p.2) parts.0 in
    due s r (ap (λ p. p.0) parts.0) (ap (λ p. p.1) parts.0) (d.0, rw time d.1, rw time d.2)
      (rest rs parts.1)

pub collect_due-RunsOf :
    (now : ℕ) (ss : List Schedule) (rs : List ScheduledRun)
    → map run_target rs ≡ map due_target (collect_due now ss)
    → RunsOf now ss rs
unfolding collect_due
collect_due-RunsOf now [] [] e = finished
collect_due-RunsOf now [] (r ∷ rs) e = absurd (ground (arith, e))
collect_due-RunsOf now (s ∷ ss) rs e = elim (IsDue-cases now s) [
  | inl (t, d) ↦
      due-RunsOf now s ss t rs (collect_due-RunsOf now ss) d
        (e ∙ ap (map due_target) (collected now s ss t d))
  | inr n ↦
      not_due s n
        (collect_due-RunsOf now ss rs (e ∙ ap (map due_target) (not_collected now s ss n)))
]
