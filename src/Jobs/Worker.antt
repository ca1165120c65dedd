-- ===== src/Jobs/Worker.antt =====
-- agent_core/jobs.py: what a worker does with a job, each stretch under the manager's lock. The job is
-- passed as its object stands.
use nosis.Base.{
  ℕ, ◌-◌, String, Bool, true, false, Option, none, some, ◌==◌, if◌then◌else◌, Result, returned,
  raised,
}
use nosis.Base.Json.{Fields, PyError, Python}
use nosis.Session.Journal.{Moment, Outcome}
use nosis.Session.Records.{job_started, job_finished}
use nosis.Jobs.{Job, JobUpdate, Manager, set_job, publish}

abbrev pub update_of : Job → (status : String) → JobUpdate
update_of job status = record {
  job_id = job.job_id;
  turn_id = job.turn_id;
  kind = job.kind;
  status = status;
  details = job.details;
}

-- The queue takes the update if the session took the event.
unfoldable pub published : JobUpdate → Outcome → Manager → Result PyError (Unit {0}) × Manager
published u (raised e, s) m = (raised e, record m { session = s })
published u (returned _, s) m = (returned tt, publish u (record m { session = s }))

abbrev elapsed : ℕ → Option ℕ → ℕ
elapsed now none = 0
elapsed now (some start) = now - start

-- Whether the function of the job is called.
abbrev pub goes_on : Bool → Result PyError (Unit {0}) × Manager → Result PyError Bool × Manager
goes_on answer (raised e, m) = (raised e, m)
goes_on answer (returned _, m) = (returned answer, m)

module _ (python : Python) (moment : Moment) (now : ℕ) where
  -- `_finish_locked`
  unfoldable pub finish :
      Job
      → (status : String) → (error : Option String) → (result_summary : Option Fields) → Manager
      → Result PyError (Unit {0}) × Manager
  finish job status error result_summary m =
      published (update_of job status)
        (job_finished python moment job.job_id job.kind job.turn_id
          (record {
            status = status;
            elapsed_seconds = elapsed now job.started_at;
            result_summary = result_summary;
            progress = job.progress;
            error = error;
          })
          m.session)
        (record m { jobs = set_job (λ j. record j { status = status }) job.job_id m.jobs })

  -- `_run` up to the call of the job's function
  unfoldable pub begin : Job → Manager → Result PyError Bool × Manager
  begin job m =
      if job.cancelled
      then goes_on false (finish job "cancelled" none none m)
      else goes_on true (
          published (update_of job "running")
            (job_started python moment job.job_id job.kind job.turn_id m.session)
            (record m {
              jobs =
                  set_job (λ j. record j { status = "running"; started_at = some now }) job.job_id
                    m.jobs;
            }))

-- How the job's function ended: it raised JobCancelled, or another exception with its text, or it
-- returned an output, which was normalized or not.
pub data Ended : Type 0 where
  stopped : Ended
  failed : (error : String) → Ended
  gave : (result_summary : Option Fields) → (normalized : Result String (Unit {0})) → Ended

-- `_run` from there on
unfoldable pub conclude :
    Python → Moment → (now : ℕ) → Job → Ended → Manager → Result PyError (Unit {0}) × Manager
conclude python moment now job stopped m = finish python moment now job "cancelled" none none m
conclude python moment now job (failed error) m =
    if job.cancelled
    then finish python moment now job "cancelled" none none m
    else finish python moment now job "failed" (some error) none m
conclude python moment now job (gave result_summary (raised error)) m =
    finish python moment now job "failed" (some error) result_summary m
conclude python moment now job (gave result_summary (returned _)) m =
    finish python moment now job "completed" none result_summary m

-- `_report_progress`
unfoldable pub report_progress : Fields → Job → Job
report_progress progress job =
    if job.status == "running" then record job { progress = some progress } else job
