-- ===== src/Schedule/Service/Threads.antt =====
-- agent_core/scheduler.py: the calls of a service and of its runs' threads, in any order. Each step is one
-- stretch of code under the lock; another process may write the file between two.
use nosis.Base.{
  ℕ, ◌≡◌, refl, arith, ◌∙◌, sym, ap, subst, String, Bool, true, false, Bool-cases, inl, inr, List,
  [], ◌∷◌, ◌++◌, map, ◌==◌, ◌&&◌, not, eq_iff, All, filter, contains, contains-filter, IsDistinct,
  IsDistinct-remove, All-remove, All-both, Option,
}
use mathlib.Core.List.{map-append}
use nosis.Schedule.Trigger.{Trigger, ScheduleUpdate, ScheduledRun}
use nosis.Schedule.Service.{
  Service, World, reload_table, create_schedule, update_schedule, delete_schedule, append_record,
}
use nosis.Schedule.Service.Poll.{
  Due, advance_all, begin_run, finish_run, running_after, is_begun, run_of,
}
use nosis.Schedule.Service.Keeps.{
  create_schedule-KeepsRunning, update_schedule-KeepsRunning, delete_schedule-KeepsRunning,
  advance_all-KeepsRunning, reload_table-KeepsRunning,
}

-- A thread executes a run of the schedule of that name.
pub record Thread : Type 0 where
  pub schedule_id : String
  pub run : ScheduledRun

pub record System : Type 0 where
  pub service : Service
  pub threads : List Thread

-- The thread that a round of the poll starts: none unless the run is begun and its record written.
abbrev pub started : (is_running : Bool) → Thread → List Thread → List Thread
started true t ts = t ∷ ts
started false t ts = ts

module _ (world : World) where
  open world use {is_writable}

  pub data Step (s : System) : System → Type 0 where
    creates :
        (now : ℕ) (new_id : String) (trigger : Trigger) (prompt workspace origin target : String)
        (end_at : Option ℕ)
        → Step s (record s {
          service =
              (create_schedule world now new_id trigger prompt workspace origin target end_at
                s.service).1;
        })
    updates :
        (now : ℕ) (name : String) (changes : ScheduleUpdate)
        → Step s (record s { service = (update_schedule world now name changes s.service).1 })
    deletes :
        (now : ℕ) (name : String)
        → Step s (record s { service = (delete_schedule world now name s.service).1 })
    reloads : (now : ℕ) → Step s (record s { service = (reload_table world now s.service).1 })
    advances :
        (now : ℕ) (due : List Due)
        → Step s (record s { service = (advance_all world now due s.service).1 })
    begins :
        (now : ℕ) (ids : ℕ → String) (n : ℕ) (d : Due)
        → Step s (record {
          service = (begin_run world now ids n d s.service).1;
          threads =
              started
                (is_begun d.reason
                    (contains s.service.running d.schedule.schedule_id)
                    s.service.has_runner
                  && is_writable)
                (record {
                  schedule_id = d.schedule.schedule_id;
                  run = run_of now ids n d s.service;
                })
                s.threads;
        })
    finishes :
        (now : ℕ) (failure : Option String) (before after : List Thread) (t : Thread)
        → s.threads ≡ before ++ t ∷ after
        → Step s (record {
          service = (finish_run world now failure t.schedule_id t.run s.service).1;
          threads = before ++ after;
        })
    written : (text : String) → Step s (record s { service = record s.service { text = text } })

  pub data Reach (s : System) : System → Type 0 where
    here : Reach s s
    onward : (t u : System) → Reach s t → Step t u → Reach s u

abbrev pub thread_ids : List Thread → List String
thread_ids ts = map Thread.schedule_id ts

-- No two threads are of one schedule, and the schedule of each is marked as running.
abbrev pub IsExclusive : (running ids : List String) → Type 0
IsExclusive running ids = IsDistinct ids × All (λ k. contains running k ≡ true) ids

All-weaken :
    {P Q : String → Type 0} (f : (k : String) → P k → Q k) (ks : List String) → All P ks → All Q ks
All-weaken f [] h = tt
All-weaken f (k ∷ ks) h = (f k h.0, All-weaken f ks h.1)

-- A schedule that is not running is in no thread.
running-excludes :
    (running ids : List String) (id : String)
    → All (λ k. contains running k ≡ true) ids
    → contains running id ≡ false
    → contains ids id ≡ false
running-excludes running [] id h e = refl
running-excludes running (k ∷ ks) id h e = ground (
  arith,
  running-excludes running ks id h.1 e,
  h.0,
  eq_iff k id,
  ap (contains running) {x = k} {y = id},
)

begun-IsExclusive :
    (running ids : List String) (id : String)
    → IsExclusive running ids
    → contains running id ≡ false
    → IsExclusive (id ∷ running) (id ∷ ids)
begun-IsExclusive running ids id h e = (
  (running-excludes running ids id h.1 e, h.0),
  (ground (arith, eq_iff id id), All-weaken (λ k r. ground arith) ids h.1),
)

module _ (world : World) where
  open world use {is_writable}

  begin_run-running :
      (now : ℕ) (ids : ℕ → String) (n : ℕ) (d : Due) (s : Service)
      → (begin_run world now ids n d s).1.running ≡ running_after d s
  unfolding begin_run append_record
  begin_run-running now ids n d s = ground arith

  finish_run-running :
      (now : ℕ) (failure : Option String) (id : String) (r : ScheduledRun) (s : Service)
      → (finish_run world now failure id r s).1.running ≡ filter (λ k. not (k == id)) s.running
  unfolding finish_run append_record
  finish_run-running now failure id r s = ground arith

  is_begun-not_running :
      (reason : Option String) (running has_runner : Bool)
      → is_begun reason running has_runner ≡ true
      → running ≡ false
  unfolding is_begun
  is_begun-not_running reason running has_runner h = ground arith

  begins-IsExclusive :
      (d : Due) (s : Service) (ts : List Thread) (t : Thread)
      → t.schedule_id ≡ d.schedule.schedule_id
      → IsExclusive s.running (thread_ids ts)
      → IsExclusive (running_after d s) (
          thread_ids (
            started
              (is_begun d.reason (contains s.running d.schedule.schedule_id) s.has_runner
                && is_writable)
              t
              ts))
  unfolding running_after
  begins-IsExclusive d s ts t e h =
      elim (Bool-cases
        (is_begun d.reason (contains s.running d.schedule.schedule_id) s.has_runner)) [
          | inl b ↦ rw b (
              let new = begun-IsExclusive s.running (thread_ids ts) d.schedule.schedule_id h (
                is_begun-not_running d.reason (contains s.running d.schedule.schedule_id)
                  s.has_runner b) in
              elim (Bool-cases is_writable) [
                | inl w ↦ rw (w, e) new
                | inr w ↦ rw w (h.0, (new.1).1)
              ])
          | inr b ↦ rw b h
        ]

  finishes-IsExclusive :
      (running : List String) (before after : List Thread) (t : Thread)
      → IsExclusive running (thread_ids (before ++ t ∷ after))
      → IsExclusive (filter (λ k. not (k == t.schedule_id)) running) (thread_ids (before ++ after))
  finishes-IsExclusive running before after t h =
      let parts =
        IsDistinct-remove (thread_ids before) t.schedule_id (thread_ids after)
          (subst IsDistinct (map-append Thread.schedule_id before (t ∷ after)) h.0) in
      let both =
        All-both {R = λ k. contains (filter (λ j. not (j == t.schedule_id)) running) k ≡ true}
          (λ k a b. contains-filter running t.schedule_id k b ∙ a)
          (thread_ids before ++ thread_ids after)
          (All-remove (λ k. contains running k ≡ true) (thread_ids before) t.schedule_id
            (thread_ids after)
            (subst (All (λ k. contains running k ≡ true))
              (map-append Thread.schedule_id before (t ∷ after)) h.1))
          parts.1 in
      rw (map-append Thread.schedule_id before after) (parts.0, both)

  Step-IsExclusive :
      (s t : System)
      → Step world s t
      → IsExclusive s.service.running (thread_ids s.threads)
      → IsExclusive t.service.running (thread_ids t.threads)
  Step-IsExclusive s _ (creates now new_id trigger prompt workspace origin target end_at) h =
      rw
        (create_schedule-KeepsRunning world now new_id trigger prompt workspace origin target end_at
          s.service)
        h
  Step-IsExclusive s _ (updates now name changes) h =
      rw (update_schedule-KeepsRunning world now name changes s.service) h
  Step-IsExclusive s _ (deletes now name) h =
      rw (delete_schedule-KeepsRunning world now name s.service) h
  Step-IsExclusive s _ (reloads now) h = rw (reload_table-KeepsRunning world now s.service) h
  Step-IsExclusive s _ (advances now due) h =
      rw (advance_all-KeepsRunning world now due s.service) h
  Step-IsExclusive s _ (begins now ids n d) h =
      rw (begin_run-running now ids n d s.service)
        (begins-IsExclusive d s.service s.threads _ refl h)
  Step-IsExclusive s _ (finishes now failure before after t e) h =
      rw (finish_run-running now failure t.schedule_id t.run s.service)
        (finishes-IsExclusive s.service.running before after t (rw (sym e) h))
  Step-IsExclusive s _ (written text) h = h

  -- From a state without threads no sequence of calls, of threads that end and of writes by others leads
  -- to two runs of one schedule that are executed at once, and the schedule of each such run is marked
  -- as running.
  pub Reach-IsExclusive :
      (s t : System)
      → s.threads ≡ []
      → Reach world s t
      → IsExclusive t.service.running (thread_ids t.threads)
  Reach-IsExclusive s t e here = rw e (tt, tt)
  Reach-IsExclusive s u e (onward t _ r step) =
      Step-IsExclusive t u step (Reach-IsExclusive s t e r)
