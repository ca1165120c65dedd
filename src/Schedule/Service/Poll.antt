-- ===== src/Schedule/Service/Poll.antt =====
-- agent_core/scheduler.py: the check for due schedules, and the runs it starts.
use nosis.Base.{
  ℕ, suc, ◌+◌, String, Bool, true, false, Option, none, some, List, [], ◌∷◌, ◌==◌, ◌&&◌, not, leb,
  contains, filter, if◌then◌else◌, Result, returned,
}
use nosis.Base.Dict.{values}
use nosis.Base.Json.{PyError}
use nosis.Schedule.Trigger.{Trigger, once, cron, interval, Schedule, ScheduledRun}
use nosis.Schedule.File.{with_run}
use nosis.Schedule.Occurrence.{next_occurrence, missed, next_after_missed_interval, until_end}
use nosis.Schedule.Service.{
  Service, World, Act, ◌>>=◌, ◌>>◌, lift, asks, commit, schedule_record, run_record, set_schedule,
  reload_table,
}

-- A tuple of the list `due`
pub record Due : Type 0 where
  pub schedule : Schedule
  pub scheduled_for : ℕ
  pub reason : Option String

-- `schedule.enabled and schedule.next_run_at and schedule.next_run_at <= now`
abbrev pub due_at : ℕ → Schedule → Option ℕ → List Due → List Due
due_at now s none rest = rest
due_at now s (some t) rest =
    if s.enabled && leb t now
    then record { schedule = s; scheduled_for = t; reason = missed s.trigger t now } ∷ rest
    else rest

-- The first loop.
unfoldable pub collect_due : ℕ → List Schedule → List Due
collect_due now [] = []
collect_due now (s ∷ ss) = due_at now s s.next_run_at (collect_due now ss)

abbrev pub is_once : Trigger → Bool
is_once (once at) = true
is_once _ = false

-- What decides the new run.
abbrev begun : ℕ → ScheduledRun → ScheduledRun
begun now r = record r { status = "running"; started_at = some now }

abbrev skipped : String → ScheduledRun → ScheduledRun
skipped reason r = record r { status = "skipped"; error = some reason }

abbrev without_runner : ℕ → ScheduledRun → ScheduledRun
without_runner now r = record r {
  status = "failed";
  error = some "scheduled task runner is unavailable";
  started_at = some now;
  finished_at = some now;
}

unfoldable pub settle_run :
    ℕ → Option String → (is_running has_runner : Bool) → ScheduledRun → ScheduledRun
settle_run now (some reason) is_running has_runner r = skipped reason r
settle_run now none true has_runner r = skipped "previous scheduled run still running" r
settle_run now none false false r = without_runner now r
settle_run now none false true r = begun now r

-- Whether the run is begun, so that the schedule is running from then on.
unfoldable pub is_begun : Option String → (is_running has_runner : Bool) → Bool
is_begun (some reason) is_running has_runner = false
is_begun none is_running has_runner = not is_running && has_runner

abbrev new_run : (ids : ℕ → String) → (n : ℕ) → Due → ScheduledRun
new_run ids n d = record {
  run_id = ids (n + n);
  schedule_id = d.schedule.schedule_id;
  session_id = d.schedule.schedule_session_id;
  turn_id = ids (n + n + 1);
  scheduled_for = d.scheduled_for;
  started_at = none;
  finished_at = none;
  status = "scheduled";
  error = none;
}

-- The run of a due schedule, by what is running.
unfoldable pub run_of : ℕ → (ids : ℕ → String) → ℕ → Due → Service → ScheduledRun
run_of now ids n d s =
    settle_run now d.reason (contains s.running d.schedule.schedule_id) s.has_runner
      (new_run ids n d)

-- `self._running.add` of a schedule whose run is begun
unfoldable pub running_after : Due → Service → List String
running_after d s =
    if is_begun d.reason (contains s.running d.schedule.schedule_id) s.has_runner
    then d.schedule.schedule_id ∷ s.running
    else s.running

module _ (world : World) where
  open world use {library, calendar}

  -- The new `next_run_at` of a due schedule: of one that missed an occurrence the first after `now`.
  unfoldable pub next_run :
      ℕ → Trigger → Option ℕ → (scheduled_for : ℕ) → Option String → Result PyError (Option ℕ)
  next_run now trigger end_at scheduled_for none =
      next_occurrence library calendar trigger end_at scheduled_for
  next_run now (interval seconds start_at) end_at scheduled_for (some reason) =
      returned (until_end end_at (some (next_after_missed_interval seconds scheduled_for now)))
  next_run now (once at) end_at scheduled_for (some reason) =
      next_occurrence library calendar (once at) end_at now
  next_run now (cron expression zone) end_at scheduled_for (some reason) =
      next_occurrence library calendar (cron expression zone) end_at now

  -- What the second loop makes of a due schedule.
  unfoldable pub advanced : Due → Option ℕ → Schedule
  advanced d next = record d.schedule {
    next_run_at = next;
    enabled = d.schedule.enabled && not (is_once d.schedule.trigger);
  }

  unfoldable pub advance : ℕ → Due → Act (Unit {0})
  advance now d = do
    next ← lift (next_run now d.schedule.trigger d.schedule.end_at d.scheduled_for d.reason)
    commit world (set_schedule (advanced d next))
        (schedule_record library "update" (advanced d next)) tt

  unfoldable pub advance_all : ℕ → List Due → Act (Unit {0})
  advance_all now [] = lift (returned tt)
  advance_all now (d ∷ ds) = do advance now d; advance_all now ds

  -- A round of the third loop; the run's execution starts if the run is begun.
  unfoldable pub begin_run : ℕ → (ids : ℕ → String) → ℕ → Due → Act ScheduledRun
  begin_run now ids n d s =
      (let run : ScheduledRun = run_of now ids n d s in
          commit world (λ t. record t { table = with_run t.table run; running = running_after d t })
            (run_record library run) run)
        s

  unfoldable pub begin_all : ℕ → (ids : ℕ → String) → ℕ → List Due → Act (List ScheduledRun)
  begin_all now ids n [] = lift (returned [])
  begin_all now ids n (d ∷ ds) = do
    run ← begin_run now ids n d
    runs ← begin_all now ids (suc n) ds
    lift (returned (run ∷ runs))

  -- `ids` are what `uuid4` gives.
  unfoldable pub poll_once : ℕ → (ids : ℕ → String) → Act (List ScheduledRun)
  poll_once now ids s =
      (do
        reload_table world now
        due ← asks (λ t. collect_due now (values t.table.schedules))
        advance_all now due
        begin_all now ids 0 due)
        s

  -- `_execute`, after the runner has returned or raised a text.
  unfoldable pub executed : ℕ → Option String → ScheduledRun → ScheduledRun
  executed now none r = record r { status = "completed"; finished_at = some now }
  executed now (some e) r = record r { status = "failed"; error = some e; finished_at = some now }

  unfoldable pub finish_run :
      ℕ → Option String → (schedule_id : String) → ScheduledRun → Act (Unit {0})
  finish_run now failure schedule_id r =
      commit world
        (λ s. record s {
          table = with_run s.table (executed now failure r);
          running = filter (λ id. not (id == schedule_id)) s.running;
        })
        (run_record library (executed now failure r)) tt
