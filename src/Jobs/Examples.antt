-- ===== src/Jobs/Examples.antt =====
-- agent_core/jobs.py: a submission that the journal does not take, and a drained queue.
use nosis.Base.{◌≡◌, refl, true, false, String, [], ◌∷◌, some, none, any, returned, raised}
use nosis.Base.Dict.{values, pop}
use nosis.Base.Json.{end, os_error}
use nosis.Session.State.{new_session}
use nosis.Session.Journal.{Moment, fails}
use nosis.Session.Examples.{python, at}
use nosis.Jobs.{
  Job, JobUpdate, Manager, is_pending, is_terminal, is_active, submit, drain_updates,
  drain_terminal_state,
}
use nosis.Jobs.Worker.{begin, conclude, gave}
use nosis.Jobs.System.{System, if_submitted}
use nosis.Jobs.Pending.{submit-refused, begin-refused}

abbrev idle : Manager
idle = record { session = new_session (some []); jobs = []; updates = []; closed = false }

abbrev full_disk : Moment
full_disk = record (at 1) { answer = fails 0 }

submit-refused_example :
    ((submit python full_disk (returned tt) "job" "shell" "turn" end idle).0 ≡ raised os_error)
    × (any
          (is_pending "turn")
          (values (submit python full_disk (returned tt) "job" "shell" "turn" end idle).1.jobs)
        ≡ true)
submit-refused_example =
    submit-refused python full_disk (returned tt) "job" "shell" "turn" end idle [] 0 refl refl refl

abbrev job : String → Job
job status = record {
  job_id = "job";
  turn_id = "turn";
  kind = "shell";
  cancelled = false;
  details = end;
  status = status;
  has_future = true;
  started_at = none;
  progress = none;
}

abbrev update : String → JobUpdate
update status = record {
  job_id = "job";
  turn_id = "turn";
  kind = "shell";
  status = status;
  details = end;
}

-- The update of the start goes with that of the end.
drained :
    drain_terminal_state "turn" (record idle {
      jobs = ("job", job "completed") ∷ [];
      updates = update "running" ∷ update "completed" ∷ [];
    })
    ≡ (update "completed" ∷ [], false, idle)
unfolding drain_terminal_state is_terminal is_pending is_active pop
drained = refl

abbrev waiting : Manager
waiting = record idle { jobs = ("job", job "submitted") ∷ [] }

begin-refused_example :
    ((begin python full_disk 3 (job "submitted") waiting).0 ≡ raised os_error)
    × (any (is_pending "turn") (values (begin python full_disk 3 (job "submitted") waiting).1.jobs)
        ≡ true)
begin-refused_example =
    begin-refused python full_disk 3 (job "submitted") waiting [] 0 refl refl refl refl

abbrev new_system : System
new_system = record { manager = idle; live = []; delivered = [] }

abbrev submitted : System
submitted = record new_system {
  manager = (submit python (at 1) (returned tt) "job" "shell" "turn" end idle).1;
  live = if_submitted (submit python (at 1) (returned tt) "job" "shell" "turn" end idle).0 "job" [];
}

abbrev concluded : System
concluded = record submitted {
  manager =
      (conclude python (at 2) 3 (job "running") (gave none (returned tt)) submitted.manager).1;
  live = [];
}

abbrev delivered : System
delivered = record concluded {
  manager = (drain_updates "turn" concluded.manager).1;
  delivered = (drain_updates "turn" concluded.manager).0;
}
