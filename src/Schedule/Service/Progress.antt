-- ===== src/Schedule/Service/Progress.antt =====
-- agent_core/scheduler.py: what a poll does with the schedules that are due.
use nosis.Base.{
  ℕ, suc, ◌-◌, ◌*◌, ◌≤◌, ◌<◌, ◌≡◌, refl, arith, String, true, Option, none, some, List, [], ◌∷◌,
  map, All, IsOk, Result-cases, inl, inr, Result, returned, returned-injective,
}
use nosis.Base.Dict.{values}
use nosis.Base.Json.{PyError}
use nosis.Schedule.File.{Table, reload, append, with_run}
use nosis.Schedule.Trigger.{Trigger, once, cron, interval, Schedule, ScheduledRun}
use nosis.Schedule.Occurrence.{second, missed, next_after_missed_interval}
use nosis.Schedule.Occurrence.Bounds.{
  IsRegular, IsUntil, next_period, until_end-bounds, next_occurrence-bounds,
}
use nosis.Schedule.Service.{Service, World, run_record, append_record, reload_table}
use nosis.Schedule.Service.Due.{
  run_target, due_target, IsDue, RunsOf, IsDue-cases, collected, not_collected, collect_due-RunsOf,
}
use nosis.Schedule.Service.Poll.{
  Due, collect_due, next_run, advance, advance_all, begin_run, begin_all, poll_once, run_of,
  running_after, settle_run,
}

-- The time that the next run must be after.
abbrev pub passed : (now scheduled_for : ℕ) → Option String → ℕ
passed now scheduled_for none = scheduled_for
passed now scheduled_for (some reason) = now

missed_interval-after :
    (seconds scheduled_for now : ℕ)
    → 0 < seconds
    → scheduled_for ≤ now
    → now < next_after_missed_interval seconds scheduled_for now
unfolding next_after_missed_interval
missed_interval-after seconds scheduled_for now h k =
    omega (arith, next_period (now - scheduled_for) (seconds * second) (omega (arith, h)), k)

module _ (world : World) where
  open world use {library, json, calendar, is_writable}

  -- If the trigger is regular (the period of an interval is not 0, the clock of a cron's zone was never
  -- set back), then a due schedule's new next run lies after the run that was due, and after the time of
  -- the poll if that run was missed, and not after the schedule's end.
  pub next_run-bounds :
      (now : ℕ) (trigger : Trigger) (end_at : Option ℕ) (scheduled_for : ℕ) (reason : Option String)
      (c : ℕ)
      → IsRegular calendar trigger
      → scheduled_for ≤ now
      → next_run world now trigger end_at scheduled_for reason ≡ returned (some c)
      → (passed now scheduled_for reason < c) × IsUntil end_at c
  unfolding next_run
  next_run-bounds now trigger end_at scheduled_for none c h k e =
      next_occurrence-bounds library calendar trigger end_at scheduled_for c h e
  next_run-bounds now (once at) end_at scheduled_for (some reason) c h k e =
      next_occurrence-bounds library calendar (once at) end_at now c h e
  next_run-bounds now (cron expression zone) end_at scheduled_for (some reason) c h k e =
      next_occurrence-bounds library calendar (cron expression zone) end_at now c h e
  next_run-bounds now (interval seconds start_at) end_at scheduled_for (some reason) c h k e =
      until_end-bounds end_at now c (some (next_after_missed_interval seconds scheduled_for now))
        (missed_interval-after seconds scheduled_for now h k) (returned-injective _ _ e)

  run_of-target :
      (now : ℕ) (ids : ℕ → String) (n : ℕ) (d : Due) (s : Service)
      → run_target (run_of now ids n d s) ≡ due_target d
  unfolding run_of settle_run
  run_of-target now ids n d s = ground arith

  -- The call returns runs, one for each of the due.
  abbrev pub MakesRuns : List Due → Result PyError (List ScheduledRun) → Type 0
  MakesRuns ds r =
      (runs : List ScheduledRun) × (r ≡ returned runs) × (map run_target runs ≡ map due_target ds)

  begin_all-MakesRuns :
      (now : ℕ) (ids : ℕ → String) (n : ℕ) (ds : List Due) (s : Service)
      → is_writable ≡ true
      → MakesRuns ds (begin_all world now ids n ds s).0
  unfolding begin_all begin_run append_record
  begin_all-MakesRuns now ids n [] s w = ([], refl, refl)
  begin_all-MakesRuns now ids n (d ∷ ds) s w =
      let run = run_of now ids n d s in
      let u : Service = record s {
        text = append json (run_record library run) s.text;
        table = with_run s.table run;
        running = running_after d s;
      } in
      let rest = begin_all-MakesRuns now ids (suc n) ds u w in
      rw w (run ∷ rest.0, rw rest.1 refl, λ i. run_of-target now ids n d s i ∷ rest.2 i)

  advance_all-returns :
      (now : ℕ) (ds : List Due) (s : Service)
      → is_writable ≡ true
      → All
          (λ d.
            IsOk (next_run world now d.schedule.trigger d.schedule.end_at d.scheduled_for d.reason))
          ds
      → (advance_all world now ds s).0 ≡ returned tt
  unfolding advance_all advance append_record
  advance_all-returns now [] s w h = refl
  advance_all-returns now (d ∷ ds) s w h =
      elim (Result-cases
        (next_run world now d.schedule.trigger d.schedule.end_at d.scheduled_for d.reason)) [
          | inl (e, q) ↦ absurd (rw q at h.0)
          | inr (next, q) ↦ rw (q, w) (advance_all-returns now ds _ w h.1)
        ]

  -- The next run of every schedule that is due can be found.
  abbrev pub Finds : ℕ → Schedule → Type 0
  Finds now s =
      (t : ℕ)
      → IsDue now s t
      → IsOk (next_run world now s.trigger s.end_at t (missed s.trigger t now))

  collect_due-Finds :
      (now : ℕ) (ss : List Schedule)
      → All (Finds now) ss
      → All
          (λ d.
            IsOk (next_run world now d.schedule.trigger d.schedule.end_at d.scheduled_for d.reason))
          (collect_due now ss)
  unfolding collect_due
  collect_due-Finds now [] h = tt
  collect_due-Finds now (s ∷ ss) h = elim (IsDue-cases now s) [
    | inl (t, d) ↦ rw (collected now s ss t d) (h.0 t d, collect_due-Finds now ss h.1)
    | inr n ↦ rw (not_collected now s ss n) (collect_due-Finds now ss h.1)
  ]

  -- If the file can be read and written and the next run of each due schedule can be found, then a poll
  -- returns a run for each schedule of the file that is enabled and whose next run is not after `now`,
  -- of its id, of its session and for the time of that next run, in the file's order, and no other run.
  pub poll_once-MakesRuns :
      (now : ℕ) (ids : ℕ → String) (s : Service) (t : Table)
      → is_writable ≡ true
      → reload library now json s.text ≡ returned t
      → All (Finds now) (values t.schedules)
      → (runs : List ScheduledRun) × ((poll_once world now ids s).0 ≡ returned runs)
        × RunsOf now (values t.schedules) runs
  unfolding poll_once reload_table
  poll_once-MakesRuns now ids s t w r h =
      let due = collect_due now (values t.schedules) in
      rw (r, advance_all-returns now due (record s { table = t }) w (collect_due-Finds now _ h))
        (let made = begin_all-MakesRuns now ids 0 due _ w in
          (made.0, made.1, collect_due-RunsOf now (values t.schedules) made.0 made.2))
