-- ===== src/Schedule/Service/Keeps.antt =====
-- agent_core/scheduler.py: what leaves the running schedules alone.
use nosis.Base.{ℕ, ◌≡◌, arith, refl, String, List, [], ◌∷◌, Option}
use nosis.Schedule.Trigger.{Trigger, ScheduleUpdate, Schedule}
use nosis.Schedule.Service.{
  Service, World, Act, reload_table, append_record, find_schedule, create_schedule, change_schedule,
  update_schedule, delete_schedule,
}
use nosis.Schedule.Service.Poll.{Due, advance, advance_all}

-- The call does not change the set of running schedules.
abbrev pub KeepsRunning : {A : Type 0} → Act A → Type 0
KeepsRunning act = (s : Service) → ((act s).1).running ≡ s.running

module _ (world : World) where
  pub create_schedule-KeepsRunning :
      (now : ℕ) (new_id : String) (trigger : Trigger) (prompt workspace origin target : String)
      (end_at : Option ℕ)
      → KeepsRunning
          (create_schedule world now new_id trigger prompt workspace origin target end_at)
  unfolding create_schedule reload_table append_record
  create_schedule-KeepsRunning now new_id trigger prompt workspace origin target end_at s =
      ground arith

  change_schedule-KeepsRunning :
      (now : ℕ) (id : String) (changes : ScheduleUpdate) (old : Schedule)
      → KeepsRunning (change_schedule world now id changes old)
  unfolding change_schedule append_record
  change_schedule-KeepsRunning now id changes old s = ground arith

  pub update_schedule-KeepsRunning :
      (now : ℕ) (name : String) (changes : ScheduleUpdate)
      → KeepsRunning (update_schedule world now name changes)
  unfolding update_schedule change_schedule reload_table append_record find_schedule
  update_schedule-KeepsRunning now name changes s = ground arith

  pub delete_schedule-KeepsRunning :
      (now : ℕ) (name : String) → KeepsRunning (delete_schedule world now name)
  unfolding delete_schedule find_schedule reload_table append_record
  delete_schedule-KeepsRunning now name s = ground arith

  advance-KeepsRunning : (now : ℕ) (d : Due) → KeepsRunning (advance world now d)
  unfolding advance append_record
  advance-KeepsRunning now d s = ground arith

  pub advance_all-KeepsRunning : (now : ℕ) (ds : List Due) → KeepsRunning (advance_all world now ds)
  unfolding advance_all
  advance_all-KeepsRunning now [] s = refl
  advance_all-KeepsRunning now (d ∷ ds) s = ground (
    arith,
    advance-KeepsRunning now d s,
    advance_all-KeepsRunning now ds (advance world now d s).1,
  )

  pub reload_table-KeepsRunning : (now : ℕ) → KeepsRunning (reload_table world now)
  unfolding reload_table
  reload_table-KeepsRunning now s = ground arith
