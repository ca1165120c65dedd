-- ===== src/ToolBatch/Counts.antt =====
-- agent_core/tool_batch.py: how often a journal tells that a call has started or ended.
use nosis.Base.{
  ℕ, suc, ◌+◌, ◌≡◌, refl, arith, ◌∙◌, String, Bool, true, false, Option, none, some, List, [], ◌∷◌,
  ◌++◌, ◌==◌, ◌&&◌, contains, if◌then◌else◌,
}
use Prim.Native.String.{◌++◌ as str_append}
use nosis.Base.Json.{Python, Fields}
use nosis.Session.Message.{ToolCall}
use nosis.Session.State.{Session, JournalEvent}
use nosis.Session.Journal.{Moment, takes, emit, event_at, append_event, write_sink, with_applied}
use nosis.Session.Operations.{Item, tool_started, tool_finished, add_item}
use nosis.ToolBatch.{Failure, cancelled, interrupted, other, failure_status}

abbrev pub same_call : String → Option String → Bool
same_call id none = false
same_call id (some k) = k == id

-- How often the journal has a start of the call of that name.
abbrev pub starts : String → List JournalEvent → ℕ
starts id [] = 0
starts id (e ∷ es) =
    if e.event_type == "tool_started" && same_call id e.tool_call_id
    then suc (starts id es)
    else starts id es

abbrev pub end_types : List String
end_types = "tool_completed" ∷ "tool_failed" ∷ "tool_cancelled" ∷ "tool_unknown" ∷ []

-- How often it has an end of it.
abbrev pub ends : String → List JournalEvent → ℕ
ends id [] = 0
ends id (e ∷ es) =
    if contains end_types e.event_type && same_call id e.tool_call_id
    then suc (ends id es)
    else ends id es

starts-append :
    (id : String) (es fs : List JournalEvent) → starts id (es ++ fs) ≡ starts id es + starts id fs
starts-append id [] fs = omega arith
starts-append id (e ∷ es) fs = ground (arith, starts-append id es fs)

ends-append :
    (id : String) (es fs : List JournalEvent) → ends id (es ++ fs) ≡ ends id es + ends id fs
ends-append id [] fs = omega arith
ends-append id (e ∷ es) fs = ground (arith, ends-append id es fs)

abbrev pub one : String → String → ℕ
one id k = if k == id then 1 else 0

emit-journal :
    (python : Python) (moment : Moment) (event_type : String) (turn_id : Option String)
    (payload : Fields) (call_id : Option String) (s : Session)
    → moment.answer ≡ takes
    → (emit python moment event_type turn_id payload call_id s).1.journal
      ≡ s.journal ++ event_at moment event_type turn_id payload call_id s ∷ []
unfolding emit append_event write_sink with_applied
emit-journal python moment event_type turn_id payload call_id s h = ground (arith, h)

emit-counts :
    (python : Python) (moment : Moment) (event_type : String) (turn_id : Option String)
    (payload : Fields) (call_id : Option String) (s : Session) (id : String)
    → moment.answer ≡ takes
    → (starts id (emit python moment event_type turn_id payload call_id s).1.journal
        ≡ starts id s.journal
          + starts id (event_at moment event_type turn_id payload call_id s ∷ []))
      × (ends id (emit python moment event_type turn_id payload call_id s).1.journal
          ≡ ends id s.journal + ends id (event_at moment event_type turn_id payload call_id s ∷ []))
emit-counts python moment event_type turn_id payload call_id s id h =
    let e = event_at moment event_type turn_id payload call_id s in
    rw (emit-journal python moment event_type turn_id payload call_id s h)
      (starts-append id s.journal (e ∷ []), ends-append id s.journal (e ∷ []))

-- A status whose event tells the end of a call.
abbrev pub Ends : String → Type 0
Ends status =
    ((str_append "tool_" status == "tool_started") ≡ false)
    × (contains end_types (str_append "tool_" status) ≡ true)

pub failure_status-Ends : (f : Failure) → Ends (failure_status f)
unfolding failure_status
failure_status-Ends (cancelled e) = (refl, refl)
failure_status-Ends (interrupted e) = (refl, refl)
failure_status-Ends (other e) = (refl, refl)

module _ (python : Python) (moment : Moment) (call : ToolCall) (turn_id : Option String)
    (id : String) (h : moment.answer ≡ takes) where
  pub started-counts :
      (s : Session)
      → (starts id (tool_started python moment call turn_id s).1.journal
          ≡ starts id s.journal + one id call.id)
        × (ends id (tool_started python moment call turn_id s).1.journal ≡ ends id s.journal)
  unfolding tool_started event_at
  started-counts s =
      let counts = emit-counts python moment "tool_started" _ _ (some call.id) s id h in
      (counts.0, counts.1 ∙ omega arith)

  pub finished-counts :
      (status : String) (error : Option String) (s : Session)
      → Ends status
      → (starts id (tool_finished python moment call status error turn_id s).1.journal
          ≡ starts id s.journal)
        × (ends id (tool_finished python moment call status error turn_id s).1.journal
            ≡ ends id s.journal + one id call.id)
  unfolding tool_finished event_at
  finished-counts status error s k =
      let counts =
        emit-counts python moment (str_append "tool_" status) _ _ (some call.id) s id h in
      (counts.0 ∙ rw k.0 (omega arith), counts.1 ∙ rw k.1 refl)

pub item-counts :
    (python : Python) (moment : Moment) (item : Item) (s : Session) (id : String)
    → moment.answer ≡ takes
    → (starts id (add_item python moment item s).1.journal ≡ starts id s.journal)
      × (ends id (add_item python moment item s).1.journal ≡ ends id s.journal)
unfolding add_item event_at
item-counts python moment item s id h =
    let counts = emit-counts python moment "message_appended" _ _ item.tool_call_id s id h in
    (counts.0 ∙ omega arith, counts.1 ∙ omega arith)
