-- ===== src/Jobs/Pending.antt =====
-- agent_core/jobs.py: a job that could not be recorded is never finished.
use nosis.Base.{
  ℕ, ◌≡◌, sym, ◌∙◌, refl, arith, String, Bool, true, false, some, List, [], ◌∷◌, ◌==◌, any,
  Bool-cases, inl, inr, Result, raised, eq_self,
}
use mathlib.Core.Option.{some-injective}
use nosis.Base.Dict.{find, put, values}
use nosis.Base.Json.{Fields, PyError, os_error, Python}
use nosis.Session.State.{JournalEvent}
use nosis.Session.Journal.{Moment, fails, emit, event_at, append_event, write_sink}
use nosis.Session.Records.{job_submitted, job_started}
use nosis.Jobs.Worker.{begin, published}
use nosis.Jobs.{set_job, Job, Manager, is_pending, is_active, recorded, submit, submitted_job}

any-put :
    (p : Job → Bool) (k : String) (v : Job) (d : List (String × Job))
    → p v ≡ true
    → any p (values (put k v d)) ≡ true
any-put p k v [] h = rw h refl
any-put p k v ((j, w) ∷ d) h =
    let rest = any-put p k v d h in
    elim (Bool-cases (j == k)) [
      | inl same ↦ rw (same, h) refl
      | inr other ↦ rw other (ground (arith, rest))
    ]

-- The job manager is open and the session's sink refuses the event: `submit` raises the sink's error,
-- and still a job of the turn counts as going on in the table.
pub submit-refused :
    (python : Python) (moment : Moment) (executor : Result PyError (Unit {0}))
    (job_id kind turn_id : String) (details : Fields) (m : Manager) (kept : List JournalEvent)
    (written : ℕ)
    → m.closed ≡ false
    → m.session.stored ≡ some kept
    → moment.answer ≡ fails written
    → ((submit python moment executor job_id kind turn_id details m).0 ≡ raised os_error)
      × (any
            (is_pending turn_id)
            (values (submit python moment executor job_id kind turn_id details m).1.jobs)
          ≡ true)
unfolding submit recorded job_submitted emit event_at append_event write_sink
submit-refused python moment executor job_id kind turn_id details m kept written h k r =
    simp (h, k, r)
      (
        refl,
        any-put (is_pending turn_id) job_id (submitted_job job_id kind turn_id details) m.jobs
            (unfold is_pending is_active in rw (eq_self turn_id) refl),
      )

any-set_job :
    (p : Job → Bool) (change : Job → Job) (k : String) (job : Job) (d : List (String × Job))
    → find k d ≡ some job
    → p (change job) ≡ true
    → any p (values (set_job change k d)) ≡ true
any-set_job p change k job [] f h = absurd (ground arith)
any-set_job p change k job ((j, w) ∷ d) f h = elim (Bool-cases (j == k)) [
  | inl same ↦
      let here : w ≡ job = some-injective w job (sym (rw same refl) ∙ f) in rw (same, here, h) refl
  | inr other ↦ rw other (ground (arith, any-set_job p change k job d (sym (rw other refl) ∙ f) h))
]

-- A job of the table is not cancelled and the session's sink refuses the event: the worker ends with the
-- sink's error before it calls the job's function, and still a job of the turn counts as going on.
pub begin-refused :
    (python : Python) (moment : Moment) (now : ℕ) (job : Job) (m : Manager)
    (kept : List JournalEvent) (written : ℕ)
    → find job.job_id m.jobs ≡ some job
    → job.cancelled ≡ false
    → m.session.stored ≡ some kept
    → moment.answer ≡ fails written
    → ((begin python moment now job m).0 ≡ raised os_error)
      × (any (is_pending job.turn_id) (values (begin python moment now job m).1.jobs) ≡ true)
unfolding begin published job_started emit event_at append_event write_sink
begin-refused python moment now job m kept written f c k r =
    simp (c, k, r)
      (
        refl,
        any-set_job (is_pending job.turn_id)
            (λ j. record j { status = "running"; started_at = some now }) job.job_id job m.jobs f
            (unfold is_pending is_active in rw (eq_self job.turn_id) refl),
      )
