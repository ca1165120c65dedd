-- ===== src/Jobs/Ends.antt =====
-- agent_core/jobs.py: how often the updates tell that a job has ended.
use nosis.Base.{
  ℕ, ◌+◌, ◌≤◌, ◌≡◌, refl, arith, ap, String, Bool, true, false, Option, none, some, List, [], ◌∷◌,
  ◌++◌, ◌==◌, not, filter, contains, eq_iff, Bool-cases, inl, inr, if◌then◌else◌, Result, returned,
  raised,
}
use nosis.Base.Json.{Fields, PyError, Python}
use nosis.Session.Journal.{Moment, Outcome}
use nosis.Jobs.{
  set_job, Job, JobUpdate, Manager, is_terminal, submit, recorded, ids, drain_updates,
  drain_terminal_state, is_ended,
}
use nosis.Jobs.Worker.{
  begin, conclude, Ended, stopped, failed, gave, finish, published, update_of, goes_on,
}
use nosis.Jobs.Cancel.{cancel_locked}
use nosis.Jobs.System.{ends_of, count, if_begun}

abbrev pub one : String → String → ℕ
one id k = if k == id then 1 else 0

pub count-insert :
    (id k : String) (before after : List String)
    → count id (before ++ k ∷ after) ≡ count id (before ++ after) + one id k
count-insert id k [] after = ground arith
count-insert id k (j ∷ before) after = ground (arith, count-insert id k before after)

pub ends_of-append :
    (id : String) (us vs : List JobUpdate) → ends_of id (us ++ vs) ≡ ends_of id us + ends_of id vs
ends_of-append id [] vs = omega arith
ends_of-append id (u ∷ us) vs = ground (arith, ends_of-append id us vs)

ends_of-filter :
    (p : JobUpdate → Bool) (id : String) (us : List JobUpdate)
    → ends_of id (filter p us) ≤ ends_of id us
ends_of-filter p id [] = omega arith
ends_of-filter p id (u ∷ us) = ground (arith, ends_of-filter p id us)

-- A drain by the turn parts the queue in two.
ends_of-parts :
    (p : JobUpdate → Bool) (id : String) (us : List JobUpdate)
    → ends_of id (filter p us) + ends_of id (filter (λ u. not (p u)) us) ≡ ends_of id us
ends_of-parts p id [] = omega arith
ends_of-parts p id (u ∷ us) = ground (arith, ends_of-parts p id us)

ends_of-absent :
    (id : String) (us : List JobUpdate) → contains (ids us) id ≡ false → ends_of id us ≡ 0
ends_of-absent id [] h = refl
ends_of-absent id (u ∷ us) h = ground (arith, ends_of-absent id us)

ends_of-excluded :
    (names : List String) (id : String) (us : List JobUpdate)
    → contains names id ≡ true
    → ends_of id (filter (λ u. not (contains names u.job_id)) us) ≡ 0
ends_of-excluded names id [] h = refl
ends_of-excluded names id (u ∷ us) h = ground (
  arith,
  ends_of-excluded names id us h,
  eq_iff u.job_id id,
  ap (contains names) {x = u.job_id} {y = id},
)

-- What is taken for a turn's ended jobs and what stays tell no job's end more often than before.
ends_of-drained :
    (p : JobUpdate → Bool) (id : String) (us : List JobUpdate)
    → ends_of id (filter p us)
        + ends_of id (filter (λ u. not (contains (ids (filter p us)) u.job_id)) us)
      ≤ ends_of id us
ends_of-drained p id us = elim (Bool-cases (contains (ids (filter p us)) id)) [
  | inl h ↦ omega (arith, ends_of-excluded (ids (filter p us)) id us h, ends_of-filter p id us)
  | inr h ↦ omega (
    arith,
    ends_of-absent id (filter p us) h,
    ends_of-filter (λ u. not (contains (ids (filter p us)) u.job_id)) id us,
  )
]

published-ends :
    (id : String) (u : JobUpdate) (o : Outcome) (m : Manager)
    → ends_of id (published u o m).1.updates ≤ ends_of id m.updates + ends_of id (u ∷ [])
unfolding published
published-ends id u (raised e, s) m = omega arith
published-ends id u (returned t, s) m = omega (arith, ends_of-append id m.updates (u ∷ []))

ends_of-one : (id : String) (u : JobUpdate) → ends_of id (u ∷ []) ≤ one id u.job_id
ends_of-one id u = ground arith

ends_of-running : (id : String) (job : Job) → ends_of id (update_of job "running" ∷ []) ≡ 0
unfolding is_terminal
ends_of-running id job = ground arith

module _ (python : Python) where
  finish-ends :
      (id : String) (moment : Moment) (now : ℕ) (job : Job) (status : String)
      (error : Option String) (summary : Option Fields) (m : Manager)
      → ends_of id (finish python moment now job status error summary m).1.updates
        ≤ ends_of id m.updates + one id job.job_id
  unfolding finish
  finish-ends id moment now job status error summary m =
      omega
        (arith, published-ends id (update_of job status) _ _, ends_of-one id (update_of job status))

  pub conclude-ends :
      (id : String) (moment : Moment) (now : ℕ) (job : Job) (ended : Ended) (m : Manager)
      → ends_of id (conclude python moment now job ended m).1.updates
        ≤ ends_of id m.updates + one id job.job_id
  unfolding conclude
  conclude-ends id moment now job stopped m = finish-ends id moment now job "cancelled" none none m
  conclude-ends id moment now job (failed error) m = ground (
    arith,
    finish-ends id moment now job "cancelled" none none m,
    finish-ends id moment now job "failed" (some error) none m,
  )
  conclude-ends id moment now job (gave summary (raised error)) m =
      finish-ends id moment now job "failed" (some error) summary m
  conclude-ends id moment now job (gave summary (returned _)) m =
      finish-ends id moment now job "completed" none summary m

  pub withdrawn-ends :
      (id : String) (moments : String → Moment) (now : ℕ) (answers : String → Bool) (job : Job)
      (m : Manager)
      → ends_of id (cancel_locked python moments now answers job m).1.updates
        ≤ ends_of id m.updates + one id job.job_id
  unfolding cancel_locked
  withdrawn-ends id moments now answers job m = ground (
    arith,
    finish-ends id (moments job.job_id) now job "cancelled" none none
        (record m { jobs = set_job (λ j. record j { cancelled = true }) job.job_id m.jobs }),
  )

  pub cancelled-ends :
      (id : String) (moments : String → Moment) (now : ℕ) (job : Job) (m : Manager)
      → ends_of id (cancel_locked python moments now (λ _. false) job m).1.updates
        ≡ ends_of id m.updates
  unfolding cancel_locked
  cancelled-ends id moments now job m = ground arith

  begun-stops :
      (id k : String) (rest : List String) (n : ℕ) (r : Result PyError (Unit {0}) × Manager)
      → ends_of id r.1.updates ≤ n + one id k
      → ends_of id (goes_on false r).1.updates + count id (if_begun (goes_on false r).0 k rest)
        ≤ n + count id rest + one id k
  begun-stops id k rest n (raised e, m) h = omega (arith, h)
  begun-stops id k rest n (returned t, m) h = omega (arith, h)

  begun-runs :
      (id : String) (job : Job) (rest : List String) (o : Outcome) (m : Manager)
      → ends_of id (goes_on true (published (update_of job "running") o m)).1.updates
          + count id
              (if_begun (goes_on true (published (update_of job "running") o m)).0 job.job_id rest)
        ≤ ends_of id m.updates + count id rest + one id job.job_id
  unfolding published
  begun-runs id job rest (raised e, s) m = omega arith
  begun-runs id job rest (returned t, s) m =
      ground
        (arith, ends_of-append id m.updates (update_of job "running" ∷ []), ends_of-running id job)

  pub begin-ends :
      (id : String) (moment : Moment) (now : ℕ) (job : Job) (rest : List String) (m : Manager)
      → ends_of id (begin python moment now job m).1.updates
          + count id (if_begun (begin python moment now job m).0 job.job_id rest)
        ≤ ends_of id m.updates + count id rest + one id job.job_id
  unfolding begin
  begin-ends id moment now job rest m = elim (Bool-cases job.cancelled) [
    | inl h ↦
        simp h (
          begun-stops id job.job_id rest _ _
            (finish-ends id moment now job "cancelled" none none m))
    | inr h ↦ simp h (begun-runs id job rest _ _)
  ]

  pub submit-ends :
      (id : String) (moment : Moment) (executor : Result PyError (Unit {0}))
      (k kind turn_id : String) (details : Fields) (m : Manager)
      → ends_of id (submit python moment executor k kind turn_id details m).1.updates
        ≤ ends_of id m.updates
  unfolding submit recorded is_terminal
  submit-ends id moment executor k kind turn_id details m = ground (
    arith,
    ends_of-append id m.updates (
        record {
          job_id = k;
          turn_id = turn_id;
          kind = kind;
          status = "submitted";
          details = details;
        }
        ∷ []),
    ends_of-filter (λ u. not (u.job_id == k)) id
        (m.updates
          ++ record {
            job_id = k;
            turn_id = turn_id;
            kind = kind;
            status = "submitted";
            details = details;
          }
            ∷ []),
  )

pub drain_updates-ends :
    (id turn_id : String) (m : Manager)
    → ends_of id (drain_updates turn_id m).0 + ends_of id (drain_updates turn_id m).1.updates
      ≡ ends_of id m.updates
unfolding drain_updates
drain_updates-ends id turn_id m = ends_of-parts (λ u. u.turn_id == turn_id) id m.updates

pub drain_terminal_state-ends :
    (id turn_id : String) (m : Manager)
    → ends_of id (drain_terminal_state turn_id m).0
        + ends_of id (drain_terminal_state turn_id m).2.updates
      ≤ ends_of id m.updates
unfolding drain_terminal_state
drain_terminal_state-ends id turn_id m = ends_of-drained (is_ended turn_id) id m.updates
