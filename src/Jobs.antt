-- ===== src/Jobs.antt =====
-- agent_core/jobs.py: the table of background jobs and the queue of updates, under the manager's lock.
-- The update callback only notifies and is left out.
pub mod Worker
pub mod Cancel
pub mod Pending
pub mod System
pub mod Ends
pub mod Once
mod Examples
use nosis.Base.{
  ℕ, String, Bool, true, false, Option, none, some, List, [], ◌∷◌, ◌++◌, ◌==◌, ◌&&◌, not, any,
  filter, map, contains, if◌then◌else◌, Result, returned, raised,
}
use nosis.Base.Dict.{put, pop, values}
use nosis.Base.Json.{Fields, PyError, runtime_error, Python}
use nosis.Session.State.{Session}
use nosis.Session.Journal.{Moment, Outcome}
use nosis.Session.Records.{job_submitted}

-- `_Job`; `cancelled` is its token, and times are whole.
pub record Job : Type 0 where
  pub job_id : String
  pub turn_id : String
  pub kind : String
  pub cancelled : Bool
  pub details : Fields
  pub status : String
  pub has_future : Bool
  pub started_at : Option ℕ
  pub progress : Option Fields

-- The output and the error of an update, which the queue does not read, are left out.
pub record JobUpdate : Type 0 where
  pub job_id : String
  pub turn_id : String
  pub kind : String
  pub status : String
  pub details : Fields

pub record Manager : Type 0 where
  pub session : Session
  pub jobs : List (String × Job)
  pub updates : List JobUpdate
  pub closed : Bool

unfoldable pub is_terminal : JobUpdate → Bool
is_terminal u = contains ("completed" ∷ "failed" ∷ "cancelled" ∷ []) u.status

-- `job.status in {"submitted", "running"}`
unfoldable pub is_active : Job → Bool
is_active job = contains ("submitted" ∷ "running" ∷ []) job.status

unfoldable pub is_pending : String → Job → Bool
is_pending turn_id job = job.turn_id == turn_id && is_active job

abbrev pop_all : List JobUpdate → List (String × Job) → List (String × Job)
pop_all [] jobs = jobs
pop_all (u ∷ us) jobs = pop_all us (pop u.job_id jobs)

abbrev pub publish : JobUpdate → Manager → Manager
publish u m = record m { updates = m.updates ++ u ∷ [] }

-- The job's object is changed in place: what is not in the table any more stays out.
abbrev pub set_job : (Job → Job) → String → List (String × Job) → List (String × Job)
set_job change k [] = []
set_job change k ((j, job) ∷ jobs) =
    if j == k then (j, change job) ∷ jobs else (j, job) ∷ set_job change k jobs

-- The thread pool takes the job, or the job is withdrawn.
abbrev executed : String → Result PyError (Unit {0}) → Manager → Result PyError (Unit {0}) × Manager
executed job_id (returned _) m = (
  returned tt,
  record m { jobs = set_job (λ job. record job { has_future = true }) job_id m.jobs },
)
executed job_id (raised e) m = (
  raised e,
  record m { jobs = pop job_id m.jobs; updates = filter (λ u. not (u.job_id == job_id)) m.updates },
)

unfoldable pub recorded :
    String → Result PyError (Unit {0}) → Outcome → Manager → Result PyError (Unit {0}) × Manager
recorded job_id executor (raised e, s) m = (raised e, record m { session = s })
recorded job_id executor (returned _, s) m = executed job_id executor (record m { session = s })

abbrev submitted_job : String → String → String → Fields → Job
submitted_job job_id kind turn_id details = record {
  job_id = job_id;
  turn_id = turn_id;
  kind = kind;
  cancelled = false;
  details = details;
  status = "submitted";
  has_future = false;
  started_at = none;
  progress = none;
}

abbrev with_job : String → String → String → Fields → Manager → Manager
with_job job_id kind turn_id details m =
    publish
      (record {
        job_id = job_id;
        turn_id = turn_id;
        kind = kind;
        status = "submitted";
        details = details;
      })
      (record m { jobs = put job_id (submitted_job job_id kind turn_id details) m.jobs })

-- `job_id` is the fresh one; `executor` is what the thread pool answers.
unfoldable pub submit :
    Python
    → Moment
    → Result PyError (Unit {0})
    → (job_id kind turn_id : String) → Fields
    → Manager
    → Result PyError (Unit {0}) × Manager
submit python moment executor job_id kind turn_id details m =
    if m.closed
    then (raised (runtime_error "job manager is closed"), m)
    else recorded job_id executor
        (job_submitted python moment job_id kind turn_id details m.session)
        (with_job job_id kind turn_id details m)

unfoldable pub drain_updates : String → Manager → List JobUpdate × Manager
drain_updates turn_id m =
    let selected = filter (λ u. u.turn_id == turn_id) m.updates in
    (
      selected,
      record m {
        updates = filter (λ u. not (u.turn_id == turn_id)) m.updates;
        jobs = pop_all (filter is_terminal selected) m.jobs;
      },
    )

abbrev pub is_ended : String → JobUpdate → Bool
is_ended turn_id u = u.turn_id == turn_id && is_terminal u

abbrev pub ids : List JobUpdate → List String
ids us = map (λ (u : JobUpdate). u.job_id) us

-- The updates, whether a job of the turn goes on, and the manager.
unfoldable pub drain_terminal_state : String → Manager → List JobUpdate × Bool × Manager
drain_terminal_state turn_id m =
    let selected = filter (is_ended turn_id) m.updates in
    let jobs = pop_all selected m.jobs in
    (
      selected,
      any (is_pending turn_id) (values jobs),
      record m {
        updates = filter (λ u. not (contains (ids selected) u.job_id)) m.updates;
        jobs = jobs;
      },
    )
