-- ===== src/Permissions/Denial.antt =====
-- agent_core/permissions.py: what is refused does not pass, and is on record.
use nosis.Base.{
  ◌≡◌, refl, arith, ◌++◌, String, Bool, true, false, Option, none, some, List, [], ◌∷◌, Result,
  returned, raised, IsOk,
}
use nosis.Base.Json.{object, field, string, end, Python}
use nosis.Session.Message.{
  ToolCall, message_to_dict, content_to_json, content_parts, origin_fields, is_user_authored,
}
use nosis.Session.Message.Read.{
  message_from_dict, content_of, calls_of, timestamp_of, data_of, origin_of,
}
use nosis.Session.State.{Session, JournalEvent}
use nosis.Session.Journal.{
  Answer, takes, Moment, Outcome, emit, event_at, append_event, with_applied, write_sink,
}
use nosis.Session.Operations.{record_user_interaction, record_in, add_item, interaction, message_of}
use nosis.Session.Apply.Run.{Applied}
use nosis.Session.Apply.{apply_event}
use nosis.Session.Apply.Messages.{apply_message, apply_anchor}
use nosis.Permissions.{
  Route, Refusal, denied, failed, needs_approval, approval_text, record_approval, refused, consult,
  authorize,
}

refused-raises : (r : Outcome) → IsOk (refused r).0 → ⊥
unfolding refused
refused-raises (raised e, s) h = h
refused-raises (returned v, s) h = h

refused_applied :
    (applied : Applied) (s : Session)
    → applied.0 ≡ returned tt
    → (refused (with_applied applied s)).0 ≡ raised denied
unfolding refused with_applied
refused_applied (raised e, s') s h = ground arith
refused_applied (returned v, s') s h = refl

refused_journal :
    (applied : Applied) (s : Session) → (refused (with_applied applied s)).1.journal ≡ s.journal
unfolding refused with_applied
refused_journal (raised e, s') s = refl
refused_journal (returned v, s') s = refl

-- A session in a turn.
abbrev pub in_turn : String → Session → Session
in_turn t s = record s { current_turn_id = some t }

module _ (python : Python) (moment : Moment) (description : ToolCall → String) where
  consult-refuses :
      (r : Refusal) (call : ToolCall) (s : Session)
      → IsOk (consult python moment description (raised r) call s).0
      → ⊥
  unfolding consult
  consult-refuses denied call s h =
      refused-raises (record_approval python moment description call false s) h
  consult-refuses (failed e) call s h = h

  consult-asks :
      (r : Result Refusal Bool) (call : ToolCall) (s : Session)
      → IsOk (consult python moment description r call s).0
      → IsOk r
  consult-asks (raised e) call s h = consult-refuses e call s h
  consult-asks (returned b) call s h = tt

  -- A call that is accepted although the user must be asked, was not refused by the policy.
  pub authorize-asks :
      (policy : ToolCall → Result Refusal Bool) (route : Option Route) (call : ToolCall)
      (s : Session)
      → needs_approval route ≡ true
      → IsOk (authorize python moment description policy route call s).0
      → IsOk (policy call)
  unfolding authorize
  authorize-asks policy route call s q h = consult-asks (policy call) call s (rw q at h)

  -- The event of a denial.
  abbrev pub denial : ToolCall → String → Session → JournalEvent
  denial call t s =
      event_at moment "message_appended" (some t)
        (field "message"
          (object (
            message_to_dict python (
              message_of
                (interaction (approval_text (description call) false) "approval_response"))))
          (field "user_source" (string "approval_response") end))
        none s

  denial_applied :
      (call : ToolCall) (t : String) (s : Session)
      → (apply_event python (denial call t s) s.state).0 ≡ returned tt
  unfolding event_at apply_event apply_message apply_anchor message_from_dict content_of calls_of
      timestamp_of data_of origin_of message_to_dict content_to_json content_parts origin_fields
      is_user_authored
  denial_applied call t s = refl

  -- The denial is returned and at the end of the journal.
  abbrev IsOnRecord : ToolCall → String → Session → Result Refusal (Unit {0}) × Session → Type 0
  IsOnRecord call t s r = (r.0 ≡ raised denied) × (r.1.journal ≡ s.journal ++ denial call t s ∷ [])

  appended-IsOnRecord :
      (call : ToolCall) (t : String) (s : Session) (kept : Option (List JournalEvent))
      → IsOnRecord call t s
          (refused (append_event python (denial call t s) (returned tt, kept) (in_turn t s)))
  unfolding append_event
  appended-IsOnRecord call t s kept = (
    refused_applied _ _ (denial_applied call t s),
    refused_journal (apply_event python (denial call t s) s.state)
        (record (in_turn t s) { journal = s.journal ++ denial call t s ∷ []; stored = kept }),
  )

  written-IsOnRecord :
      (call : ToolCall) (t : String) (s : Session) (answer : Answer)
      (kept : Option (List JournalEvent))
      → answer ≡ takes
      → IsOnRecord call t s (
          refused (
            append_event python
              (denial call t s)
              (write_sink answer (denial call t s ∷ []) kept)
              (in_turn t s)))
  unfolding write_sink
  written-IsOnRecord call t s answer none h = appended-IsOnRecord call t s none
  written-IsOnRecord call t s answer (some es) h =
      rw h (appended-IsOnRecord call t s (some (es ++ denial call t s ∷ [])))

  consult-IsOnRecord :
      (call : ToolCall) (t : String) (s : Session)
      → moment.answer ≡ takes
      → IsOnRecord call t s (consult python moment description (raised denied) call (in_turn t s))
  unfolding consult record_approval record_user_interaction record_in add_item emit event_at
  consult-IsOnRecord call t s h = written-IsOnRecord call t s moment.answer s.stored h

  -- In a turn, with a sink that takes the event, a call that the user must be asked for and denies
  -- raises the denial, and the journal has grown by the message that says so.
  pub authorize-denied :
      (policy : ToolCall → Result Refusal Bool) (route : Option Route) (call : ToolCall)
      (t : String) (s : Session)
      → moment.answer ≡ takes
      → needs_approval route ≡ true
      → policy call ≡ raised denied
      → ((authorize python moment description policy route call (in_turn t s)).0 ≡ raised denied)
        × ((authorize python moment description policy route call (in_turn t s)).1.journal
            ≡ s.journal ++ denial call t s ∷ [])
  unfolding authorize
  authorize-denied policy route call t s h q d = rw (q, d) (consult-IsOnRecord call t s h)
