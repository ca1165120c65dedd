-- ===== src/Session/Apply/Jobs.antt =====
-- agent_core/session.py: the branches of `apply_event` for background jobs.
use nosis.Base.{
  String, Option, none, some, List, [], ◌∷◌, contains, if◌then◌else◌, Result, returned, raised,
  ◌>>=◌,
}
use nosis.Base.Dict.{find, put}
use nosis.Base.Json.{
  Json, null, number, string, object, Fields, end, get, PyError, type_error, require, get_or, text?,
  str, Python,
}
use nosis.Session.State.{JournalEvent, JobExecution, Replayed}
use nosis.Session.Apply.Run.{Applied, done, reading}

-- `elapsed_seconds: float = 0.0`
abbrev new_job : String → String → String → String → JobExecution
new_job job_id turn_id kind status = record {
  job_id = job_id;
  turn_id = turn_id;
  kind = kind;
  status = status;
  submitted_at = none;
  started_at = none;
  completed_at = none;
  error = none;
  details = end;
  elapsed_seconds = number 0;
  progress = null;
  result_summary = null;
}

abbrev details_dict : Json → Result PyError Fields
details_dict (object d) = returned d
details_dict _ = raised type_error

-- The job events have a job id that is a text, and a turn id.
unfoldable pub apply_job_submitted : Python → JournalEvent → String → String → Replayed → Applied
apply_job_submitted python e job_id turn_id s =
    reading (require "details" e.payload >>= details_dict) s λ details. done (record s {
      jobs =
          put job_id
            (record (new_job job_id turn_id (str python.repr (get_or (string "") "kind" e.payload))
              "submitted") { submitted_at = some e.timestamp_utc; details = details })
            s.jobs;
    })

abbrev pub known_job :
    Python → JournalEvent → String → String → String → Option JobExecution → JobExecution
known_job python e job_id turn_id status (some job) = job
known_job python e job_id turn_id status none =
    new_job job_id turn_id (str python.repr (get_or (string "") "kind" e.payload)) status

unfoldable pub apply_job_started : Python → JournalEvent → String → String → Replayed → Applied
apply_job_started python e job_id turn_id s =
    let job = known_job python e job_id turn_id "running" (find job_id s.jobs) in
    done (record s {
      jobs =
          put job_id (record job { status = "running"; started_at = some e.timestamp_utc }) s.jobs;
    })

abbrev job_statuses : List String
job_statuses = "submitted" ∷ "running" ∷ "completed" ∷ "failed" ∷ "cancelled" ∷ "interrupted" ∷ []

abbrev job_status : Option String → String
job_status none = "interrupted"
job_status (some s) = if contains job_statuses s then s else "interrupted"

-- The fields of a job that are written in turn; a missing key ends the run after those before it.
unfoldable pub apply_job_finished : Python → JournalEvent → String → String → Replayed → Applied
apply_job_finished python e job_id turn_id s =
    let write = λ (j : JobExecution). record s { jobs = put job_id j s.jobs } in
    let job = record (known_job python e job_id turn_id "interrupted" (find job_id s.jobs)) {
      status = job_status (text? (get "status" e.payload));
      completed_at = some e.timestamp_utc;
    } in
    reading (require "elapsed_seconds" e.payload) (write job) λ elapsed.
      let timed = record job { elapsed_seconds = elapsed } in
      reading (require "result_summary" e.payload) (write timed) λ summary.
        let summed = record timed { result_summary = summary } in
        reading (require "progress" e.payload) (write summed) λ progress.
          done
            (write (record summed { progress = progress; error = text? (get "error" e.payload) }))
