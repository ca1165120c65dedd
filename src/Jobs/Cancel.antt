-- ===== src/Jobs/Cancel.antt =====
-- agent_core/jobs.py: what callers see of jobs, and how they cancel them.
use nosis.Base.{
  ℕ, ◌-◌, String, Bool, true, false, Option, none, some, List, [], ◌∷◌, ◌==◌, ◌&&◌, not, contains,
  any, filter, map, if◌then◌else◌, Result, returned, raised, ◌>>=◌,
}
use nosis.Base.Dict.{find, values}
use nosis.Base.Json.{Fields, PyError, Json, null, number, object, value_error, key_error, Python}
use nosis.Session.State.{JobExecution}
use nosis.Session.Journal.{Moment}
use nosis.Jobs.{Job, Manager, set_job, is_active, is_pending, is_terminal}
use nosis.Jobs.Worker.{finish}

pub record JobSnapshot : Type 0 where
  pub job_id : String
  pub kind : String
  pub status : String
  pub details : Fields
  pub elapsed_seconds : Json
  pub progress : Json
  pub error : Option String
  pub result_summary : Json
  pub cancel_requested : Bool

abbrev progress_json : Option Fields → Json
progress_json none = null
progress_json (some d) = object d

-- What the table knows of the job is newer than the session's record.
abbrev progress_of : Json → Option Job → Json
progress_of stored none = stored
progress_of stored (some job) = progress_json job.progress

abbrev running_for : (now : ℕ) → Json → (is_running : Bool) → Option ℕ → Json
running_for now stored true (some start) = number (now - start)
running_for now stored _ _ = stored

abbrev elapsed_of : (now : ℕ) → Json → Option Job → Json
elapsed_of now stored none = stored
elapsed_of now stored (some job) = running_for now stored (job.status == "running") job.started_at

abbrev is_cancelling : Option Job → Bool
is_cancelling none = false
is_cancelling (some job) = is_active job && job.cancelled

abbrev snapshot_of : (now : ℕ) → Option Job → Option JobExecution → Result PyError JobSnapshot
snapshot_of now job none = raised (value_error "unknown job_id")
snapshot_of now job (some stored) = returned (record {
  job_id = stored.job_id;
  kind = stored.kind;
  status = stored.status;
  details = stored.details;
  elapsed_seconds = elapsed_of now stored.elapsed_seconds job;
  progress = progress_of stored.progress job;
  error = stored.error;
  result_summary = stored.result_summary;
  cancel_requested = is_cancelling job;
})

-- `_snapshot_locked`, and `get`
unfoldable pub snapshot : (now : ℕ) → (job_id : String) → Manager → Result PyError JobSnapshot
snapshot now job_id m = snapshot_of now (find job_id m.jobs) (find job_id m.session.state.jobs)

abbrev snapshots : (now : ℕ) → List Job → Manager → Result PyError (List JobSnapshot)
snapshots now [] m = returned []
snapshots now (job ∷ jobs) m = do
  s ← snapshot now job.job_id m
  rest ← snapshots now jobs m
  returned (s ∷ rest)

-- `list`
unfoldable pub list : (now : ℕ) → Manager → Result PyError (List JobSnapshot)
list now m = snapshots now (filter is_active (values m.jobs)) m

-- The clock and the journal at each job's end, and what each future answers to `cancel`.
module _ (python : Python) (moments : String → Moment) (now : ℕ) (answers : String → Bool) where
  -- `_cancel_locked`
  unfoldable pub cancel_locked : Job → Manager → Result PyError (Unit {0}) × Manager
  cancel_locked job m =
      let told : Manager = record m {
        jobs = set_job (λ j. record j { cancelled = true }) job.job_id m.jobs;
      } in
      if is_active job
      then (if job.has_future && answers job.job_id
          then finish python (moments job.job_id) now job "cancelled" none none told
          else (returned tt, told))
      else (returned tt, m)

  abbrev then_snapshot :
      (job_id : String) → Result PyError (Unit {0}) × Manager → Result PyError JobSnapshot × Manager
  then_snapshot job_id (raised e, m) = (raised e, m)
  then_snapshot job_id (returned _, m) = (snapshot now job_id m, m)

  abbrev cancel_found :
      (job_id : String) → Option Job → Manager → Result PyError (Unit {0}) × Manager
  cancel_found job_id none m = (raised (key_error job_id), m)
  cancel_found job_id (some job) m = cancel_locked job m

  abbrev cancel_if_active :
      (job_id : String)
      → Result PyError JobSnapshot
      → Manager
      → Result PyError JobSnapshot × Manager
  cancel_if_active job_id (raised e) m = (raised e, m)
  cancel_if_active job_id (returned s) m =
      if contains ("submitted" ∷ "running" ∷ []) s.status
      then then_snapshot job_id (cancel_found job_id (find job_id m.jobs) m)
      else (snapshot now job_id m, m)

  unfoldable pub cancel : (job_id : String) → Manager → Result PyError JobSnapshot × Manager
  cancel job_id m = cancel_if_active job_id (snapshot now job_id m) m

  abbrev if_returned :
      (Manager → Result PyError (Unit {0}) × Manager)
      → Result PyError (Unit {0}) × Manager
      → Result PyError (Unit {0}) × Manager
  if_returned next (raised e, m) = (raised e, m)
  if_returned next (returned _, m) = next m

  unfoldable pub cancel_jobs : List Job → Manager → Result PyError (Unit {0}) × Manager
  cancel_jobs [] m = (returned tt, m)
  cancel_jobs (job ∷ jobs) m = if_returned (cancel_jobs jobs) (cancel_locked job m)

  unfoldable pub cancel_turn : (turn_id : String) → Manager → Result PyError (Unit {0}) × Manager
  cancel_turn turn_id m = cancel_jobs (filter (λ job. job.turn_id == turn_id) (values m.jobs)) m

-- `wait_for_turn` returns when this is so.
unfoldable pub is_over : (turn_id : String) → Manager → Bool
is_over turn_id m = not (any (is_pending turn_id) (values m.jobs))

-- What `wait_for_update` returns.
unfoldable pub has_update : (turn_id : String) → Manager → Bool
has_update turn_id m = any (λ u. u.turn_id == turn_id && is_terminal u) m.updates

-- The members of a set of texts, each once; the order of a Python set is not fixed.
abbrev members : List String → List String
members [] = []
members (s ∷ ss) = let rest = members ss in if contains rest s then rest else s ∷ rest

-- `close` up to its calls of `cancel_turn` and `wait_for_turn` for these turns
unfoldable pub begin_close : Manager → List String × Manager
begin_close m = if m.closed then ([], m) else (
  members (map (λ (job : Job). job.turn_id) (filter is_active (values m.jobs))),
  record m { closed = true },
)
