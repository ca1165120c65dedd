-- ===== src/Session/Load/Examples.antt =====
-- agent_core/session_store.py: a run that is stored and loaded.
use nosis.Base.{◌≡◌, refl, some, [], returned}
use nosis.Session.State.{Session, new_session, blank}
use nosis.Session.Journal.{emit, event_at, append_event, with_applied, write_sink, next_seq}
use nosis.Session.Operations.{
  begin_turn, add_item, tool_started, model_completed, then_current, usage_to_dict,
}
use nosis.Session.Records.{job_submitted}
use nosis.Session.Perform.{perform, run_all}
use nosis.Session.Load.{load_events, load_events-run_all}
use nosis.Session.Apply.{apply_event}
use nosis.Session.Apply.Turns.{apply_turn_started, apply_tool_started}
use nosis.Session.Apply.Messages.{apply_message, apply_anchor, apply_completed, apply_usage}
use nosis.Session.Apply.Jobs.{apply_job_submitted}
use nosis.Session.Message.Read.{
  message_from_dict, content_of, parts_of, part_of, attachment_of, required_text, required_size,
  calls_of, timestamp_of, data_of, origin_of,
}
use nosis.Session.Message.{
  message_to_dict, content_to_json, content_parts, parts_to_items, origin_fields, is_user_authored,
}
use nosis.Session.Examples.{python, turn_calls}

abbrev stored_turn : Session
stored_turn = (run_all python turn_calls (new_session (some []))).1

stored_turn-returned :
    run_all python turn_calls (new_session (some [])) ≡ (returned tt, stored_turn)
unfolding run_all perform begin_turn add_item tool_started model_completed then_current
    usage_to_dict job_submitted emit event_at append_event with_applied write_sink next_seq
    apply_event apply_turn_started apply_tool_started apply_message apply_anchor apply_completed
    apply_usage apply_job_submitted message_from_dict content_of parts_of part_of attachment_of
    required_text required_size calls_of timestamp_of data_of origin_of message_to_dict
    content_to_json content_parts parts_to_items origin_fields is_user_authored
stored_turn-returned = refl

load_events-run_all_example :
    load_events python stored_turn.journal blank ≡ returned stored_turn.state
load_events-run_all_example =
    load_events-run_all python turn_calls (some []) stored_turn stored_turn-returned
