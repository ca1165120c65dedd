-- ===== src/Schedule/Stored/Back.antt =====
-- agent_core/scheduler.py: what was stored is read back.
use nosis.Base.{ℕ, ◌≡◌, refl, String, false, Option, none, some, returned}
use nosis.Base.Texts.{is_empty}
use nosis.Base.Json.{string, text?, optional_text}
use nosis.Schedule.Trigger.{
  Trigger, once, cron, interval, Schedule, ScheduledRun, Library, make_cron, make_interval,
  parse_dt, optional_time, trigger_to_dict, aware_time, require_aware,
}
use nosis.Schedule.Stored.{
  trigger_from_dict, schedule_to_dict, schedule_from_dict, run_to_dict, run_from_dict,
}

module _ (lib : Library) where
  open lib use {isoformat, fromisoformat}

  -- A written time is not empty, and read back it is the same time.
  abbrev pub ReadsTimes : Type 0
  ReadsTimes =
      (t : ℕ) → (is_empty (isoformat t) ≡ false) × (fromisoformat (isoformat t) ≡ returned (some t))

  -- What the constructor of the trigger accepted.
  abbrev pub IsTrigger : Trigger → Type 0
  IsTrigger (once at) = Unit
  IsTrigger (cron expression timezone) =
      make_cron lib expression timezone ≡ returned (cron expression timezone)
  IsTrigger (interval seconds start_at) =
      make_interval lib seconds start_at ≡ returned (interval seconds start_at)

  module _ (law : ReadsTimes) where
    parse_dt-some : (t : ℕ) → parse_dt lib (some (string (isoformat t))) ≡ returned (some t)
    unfolding parse_dt aware_time require_aware
    parse_dt-some t = rw ((law t).0, (law t).1) refl

    parse_dt-optional_time : (o : Option ℕ) → parse_dt lib (some (optional_time lib o)) ≡ returned o
    parse_dt-optional_time none = unfold parse_dt in refl
    parse_dt-optional_time (some t) = parse_dt-some t

    trigger_from_dict-trigger_to_dict :
        (t : Trigger) → IsTrigger t → trigger_from_dict lib (trigger_to_dict lib t) ≡ returned t
    unfolding trigger_from_dict trigger_to_dict
    trigger_from_dict-trigger_to_dict (once at) h = rw (parse_dt-some at) refl
    trigger_from_dict-trigger_to_dict (cron expression timezone) h = h
    trigger_from_dict-trigger_to_dict (interval seconds start_at) h =
        rw (parse_dt-optional_time start_at) h

    text?-optional_text : (o : Option String) → text? (some (optional_text o)) ≡ o
    text?-optional_text none = refl
    text?-optional_text (some s) = refl

    -- A schedule whose trigger its constructor accepted is read back from the file as it was, if
    -- times are.
    pub schedule_from_dict-schedule_to_dict :
        (now : ℕ) (s : Schedule)
        → IsTrigger s.trigger
        → schedule_from_dict lib now (schedule_to_dict lib s) ≡ returned s
    unfolding schedule_from_dict schedule_to_dict
    schedule_from_dict-schedule_to_dict now s h =
        rw
          (
            trigger_from_dict-trigger_to_dict s.trigger h,
            parse_dt-optional_time s.end_at,
            parse_dt-some s.created_at,
            parse_dt-optional_time s.next_run_at,
          )
          refl

    pub run_from_dict-run_to_dict :
        (now : ℕ) (r : ScheduledRun) → run_from_dict lib now (run_to_dict lib r) ≡ returned r
    unfolding run_from_dict run_to_dict
    run_from_dict-run_to_dict now r =
        rw
          (
            parse_dt-some r.scheduled_for,
            parse_dt-optional_time r.started_at,
            parse_dt-optional_time r.finished_at,
            text?-optional_text r.error,
          )
          refl
