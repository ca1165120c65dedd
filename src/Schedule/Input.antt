-- ===== src/Schedule/Input.antt =====
-- agent_core/scheduler.py: the input forms of triggers and of schedule updates.
use nosis.Base.{◌≡◌, refl, arith, String, false, none, some, returned}
use nosis.Base.Texts.{is_empty}
use nosis.Base.Json.{object}
use nosis.Schedule.Trigger.{
  Trigger, once, cron, interval, Library, make_cron, make_interval, is_known_zone, trigger_to_dict,
  parse_trigger_input, parse_once, parse_cron, parse_interval, aware_time, require_aware,
}
use nosis.Schedule.Stored.Back.{ReadsTimes, IsTrigger}

-- What the input may not be: a cron trigger without an expression.
abbrev pub HasExpression : Trigger → Type 0
HasExpression (cron expression zone) = is_empty expression ≡ false
HasExpression _ = Unit

module _ (lib : Library) where
  open lib use {isoformat, fromisoformat}

  known_zone-filled :
      (expression zone : String)
      → make_cron lib expression zone ≡ returned (cron expression zone)
      → is_empty zone ≡ false
  unfolding make_cron is_known_zone
  known_zone-filled expression String.[] h = absurd (ground arith)
  known_zone-filled expression (String.◌∷◌ c s) h = refl

  -- The form of a trigger that its constructor accepted, with an expression if it is a cron trigger, is
  -- accepted as input and gives the trigger, if times are read back.
  pub parse_trigger_input-trigger_to_dict :
      (t : Trigger)
      → ReadsTimes lib
      → IsTrigger lib t
      → HasExpression t
      → parse_trigger_input lib (object (trigger_to_dict lib t)) ≡ returned t
  unfolding parse_trigger_input parse_once parse_cron parse_interval trigger_to_dict make_interval
      aware_time require_aware
  parse_trigger_input-trigger_to_dict (once at) law h k = rw ((law at).0, (law at).1) refl
  parse_trigger_input-trigger_to_dict (cron expression zone) law h k =
      rw (k, known_zone-filled expression zone h) h
  parse_trigger_input-trigger_to_dict (interval seconds none) law h k = ground arith
  parse_trigger_input-trigger_to_dict (interval seconds (some start)) law h k =
      ground (arith, law start, h)
