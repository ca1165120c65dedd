-- ===== src/Session/Perform/Keeps.antt =====
-- agent_core/session.py: what every operation of a session keeps.
use nosis.Base.{String, Bool, true, false, Option, none, some, if◌then◌else◌}
use nosis.Base.Json.{Fields, Python}
use nosis.Session.State.{Session, RuntimeErrorInfo}
use nosis.Session.Journal.{Moment, Outcome, emit}
use nosis.Session.Operations.{
  begin_turn, add_item, record_in, record_user_interaction, finish_known, finish_turn, tool_started,
  model_completed, auxiliary_model_completed, tool_finished, Item, then_current, skip,
}
use nosis.Session.Records.{
  job_submitted, job_started, job_finished, set_archived_summary, set_permission_preset, set_plan,
  record_hook,
}
use nosis.Session.Recovery.{Clock, recover}
use nosis.Session.Perform.{
  Operation, begins, adds, interacts, finishes, starts_tool, completes_model, completes_auxiliary,
  finishes_tool, submits_job, starts_job, finishes_job, archives, sets_preset, sets_plan,
  records_hook, recovers, perform, without_events,
}

-- `P` holds before a call and `Q` of what it returned or raised.
module _ (python : Python) (P : Session → Type 0) (Q : Outcome → Type 0)
    (emit_keeps : (m : Moment) (event_type : String) (turn_id : Option String) (payload : Fields)
        (call_id : Option String) (s : Session)
      → P s
      → Q (emit python m event_type turn_id payload call_id s))
    (recover_keeps : (clock : Clock) (m : Moment) (s : Session)
      → P s
      → Q (without_events (recover python clock m.answer s)))
    (current_keeps : (c : Option String) (r : Outcome) → Q r → Q (then_current c r))
    (skip_keeps : (s : Session) → P s → Q (skip s)) where
  if_keeps : (b : Bool) (r k : Outcome) → Q r → Q k → Q (if b then r else k)
  if_keeps true r k p q = p
  if_keeps false r k p q = q

  finish_keeps :
      (m : Moment) (t : Option String) (status : String) (error : Option RuntimeErrorInfo)
      (s : Session)
      → P s
      → Q (finish_known python m t status error s)
  unfolding finish_known
  finish_keeps m none status error s p = skip_keeps s p
  finish_keeps m (some t) status error s p = current_keeps _ _ (emit_keeps m _ _ _ _ s p)

  record_keeps :
      (m : Moment) (t : Option String) (i : Item) (s : Session) → P s → Q (record_in python m t i s)
  unfolding record_in add_item
  record_keeps m none i s p = skip_keeps s p
  record_keeps m (some t) i s p = emit_keeps m _ _ _ _ s p

  pub perform_keeps : (m : Moment) (o : Operation) (s : Session) → P s → Q (perform python m o s)
  unfolding perform begin_turn add_item record_user_interaction finish_turn tool_started
      model_completed auxiliary_model_completed tool_finished job_submitted job_started job_finished
      set_archived_summary set_permission_preset set_plan record_hook
  perform_keeps m (begins turn_id) s p = current_keeps _ _ (emit_keeps m _ _ _ _ s p)
  perform_keeps m (adds i) s p = emit_keeps m _ _ _ _ s p
  perform_keeps m (interacts content source) s p = record_keeps m s.current_turn_id _ s p
  perform_keeps m (finishes status turn_id error) s p = finish_keeps m _ status error s p
  perform_keeps m (starts_tool call turn_id) s p = emit_keeps m _ _ _ _ s p
  perform_keeps m (completes_model index usage calls anchor) s p = emit_keeps m _ _ _ _ s p
  perform_keeps m (completes_auxiliary call model turn_id) s p = emit_keeps m _ _ _ _ s p
  perform_keeps m (finishes_tool call status error turn_id) s p = emit_keeps m _ _ _ _ s p
  perform_keeps m (submits_job job_id kind turn_id details) s p = emit_keeps m _ _ _ _ s p
  perform_keeps m (starts_job job_id kind turn_id) s p = emit_keeps m _ _ _ _ s p
  perform_keeps m (finishes_job job_id kind turn_id r) s p = emit_keeps m _ _ _ _ s p
  perform_keeps m (archives summary item_cursor) s p = emit_keeps m _ _ _ _ s p
  perform_keeps m (sets_preset preset) s p =
      if_keeps _ (skip s) _ (skip_keeps s p) (emit_keeps m _ _ _ _ s p)
  perform_keeps m (sets_plan snapshot) s p = emit_keeps m _ _ _ _ s p
  perform_keeps m (records_hook status payload call_id) s p = emit_keeps m _ _ _ _ s p
  perform_keeps m (recovers clock) s p = recover_keeps clock m s p
