-- ===== src/ToolBatch/Paired.antt =====
-- agent_core/tool_batch.py: a call that was recorded as started is recorded as ended.
use nosis.Base.{
  ◌+◌, ◌≤◌, ◌≡◌, refl, arith, String, Option, none, some, List, [], ◌∷◌, All, Result, returned,
  raised,
}
use nosis.Base.Json.{PyError, Python}
use nosis.Session.Message.{ToolCall}
use nosis.Session.State.{Session}
use nosis.Session.Journal.{Moment, Outcome, takes}
use nosis.Session.Operations.{tool_finished, add_item}
use nosis.ToolBatch.Counts.{
  starts, ends, one, failure_status-Ends, started-counts, finished-counts, item-counts,
}
use nosis.ToolBatch.{
  Failure, failure_status, Run, continue_with, of_session, finish_call, commit_normalized_result,
  active_part, after_active, raised_again, tool_item, error_text, execute_call,
  execute_sequentially,
}

-- From one session to another the starts of a call have not grown by more than its ends, or by one more.
abbrev Paired : String → Session → Session → Type 0
Paired id s t = starts id t.journal + ends id s.journal ≤ starts id s.journal + ends id t.journal

abbrev Open : String → String → Session → Session → Type 0
Open id k s t =
    starts id t.journal + ends id s.journal ≤ starts id s.journal + ends id t.journal + one id k

abbrev Active : String → String → Session → Result Failure (Unit {0}) × Session → Type 0
Active id k s (raised f, t) = Open id k s t
Active id k s (returned _, t) = Paired id s t

-- The journal takes every event of the call.
abbrev pub Accepts : Run → Type 0
Accepts run =
    (run.at_start.answer ≡ takes)
    × (run.at_finish.answer ≡ takes)
    × (run.at_failure.answer ≡ takes)
    × (run.at_item.answer ≡ takes)

module _ (python : Python) (explain : PyError → String) (turn_id : String) where
  of_session-Active :
      (id k : String) (s : Session) (o : Outcome)
      → Paired id s o.1
      → Active id k s (of_session python explain turn_id o)
  of_session-Active id k s (raised e, t) h = omega (arith, h)
  of_session-Active id k s (returned _, t) h = h

  finish_call-Paired :
      (id : String) (moment : Moment) (call : ToolCall) (error : Option String) (s t : Session)
      → moment.answer ≡ takes
      → Open id call.id s t
      → Paired id s (finish_call python explain turn_id moment call error t).1
  unfolding finish_call
  finish_call-Paired id moment call none s t h o = omega (
    arith,
    finished-counts python moment call (some turn_id) id h "completed" none t (refl, refl),
    o,
  )
  finish_call-Paired id moment call (some m) s t h o = omega (
    arith,
    finished-counts python moment call (some turn_id) id h "failed" (some m) t (refl, refl),
    o,
  )

  parts-Active :
      (id : String) (run : Run) (s t : Session) (o : Result PyError (Unit {0}))
      (a : Result Failure (Unit {0})) (x : Result Failure (Option String))
      → run.at_finish.answer ≡ takes
      → Open id run.call.id s t
      → Active id run.call.id s (
          continue_with (of_session python explain turn_id (o, t)) (λ _ t.
            continue_with
              (a, t)
              (λ _ u.
                continue_with
                  (x, u)
                  (λ error v.
                    of_session python explain turn_id
                      (finish_call python explain turn_id run.at_finish run.call error v)))))
  parts-Active id run s t (raised e) a x h k = k
  parts-Active id run s t (returned _) (raised f) x h k = k
  parts-Active id run s t (returned _) (returned _) (raised f) h k = k
  parts-Active id run s t (returned _) (returned _) (returned error) h k =
      of_session-Active id run.call.id s _
        (finish_call-Paired id run.at_finish run.call error s t h k)

  active_part-Active :
      (id : String) (run : Run) (s : Session)
      → Accepts run
      → Active id run.call.id s (active_part python explain turn_id run s)
  unfolding active_part
  active_part-Active id run s h =
      parts-Active id run s _ _ run.announced run.executed h.1
        (omega (arith, started-counts python run.at_start run.call (some turn_id) id h.0 s))

  shown-Paired :
      (id : String) (s : Session) (o : Outcome) (b : Result Failure (Unit {0}))
      → Paired id s o.1
      → Paired id s (continue_with (of_session python explain turn_id o) (λ _ u. (b, u))).1
  shown-Paired id s (raised e, t) b h = h
  shown-Paired id s (returned _, t) b h = h

  commit_from :
      (id : String) (run : Run) (s t : Session) (n : Result Failure String)
      (b : Result Failure (Unit {0}))
      → Accepts run
      → Paired id s t
      → Paired id s
          (continue_with
            (n, t)
            (λ content t.
              continue_with
                (of_session python explain turn_id (
                  add_item python run.at_item
                    (tool_item python explain turn_id run.call content run.now)
                    t))
                (λ _ u. (b, u)))).1
  commit_from id run s t (raised f) b h p = p
  commit_from id run s t (returned content) b h p =
      shown-Paired id s
        (add_item python run.at_item (tool_item python explain turn_id run.call content run.now) t)
        b
        (omega (
          arith,
          item-counts python run.at_item (tool_item python explain turn_id run.call content run.now)
              t id h.3,
          p,
        ))

  raised-Paired :
      (id : String) (s : Session) (f : Failure) (o : Outcome)
      → Paired id s o.1
      → Paired id s (raised_again python explain turn_id f o).1
  raised-Paired id s f (raised e, t) h = h
  raised-Paired id s f (returned _, t) h = h

  commit-Paired :
      (id : String) (run : Run) (s t : Session)
      → Accepts run
      → Paired id s t
      → Paired id s (commit_normalized_result python explain turn_id run t).1
  unfolding commit_normalized_result
  commit-Paired id run s t h p = commit_from id run s t run.normalized run.shown h p

  after_active-Paired :
      (id : String) (run : Run) (s : Session) (r : Result Failure (Unit {0}) × Session)
      → Accepts run
      → Active id run.call.id s r
      → Paired id s (after_active python explain turn_id run r).1
  after_active-Paired id run s (raised f, t) h p =
      raised-Paired id s f
        (tool_finished python run.at_failure run.call (failure_status f) (some (error_text f))
          (some turn_id) t)
        (omega (
          arith,
          finished-counts python run.at_failure run.call (some turn_id) id h.2 (failure_status f)
              (some (error_text f)) t (failure_status-Ends f),
          p,
        ))
  after_active-Paired id run s (returned _, t) h p = commit-Paired id run s t h p

  execute_call-Paired :
      (id : String) (run : Run) (s : Session)
      → Accepts run
      → Paired id s (execute_call python explain turn_id run s).1
  unfolding execute_call
  execute_call-Paired id run s h =
      after_active-Paired id run s (active_part python explain turn_id run s) h
        (active_part-Active id run s h)

  sequence-Paired :
      (id : String) (s : Session) (r : Result Failure (Unit {0}) × Session) (runs : List Run)
      → Paired id s r.1
      → ((t : Session) → Paired id t (execute_sequentially python explain turn_id runs t).1)
      → Paired id s (continue_with r (λ _ t. execute_sequentially python explain turn_id runs t)).1
  sequence-Paired id s (raised f, t) runs h k = h
  sequence-Paired id s (returned _, t) runs h k = omega (arith, h, k t)

  -- If the journal takes every event of the calls, then whatever the callbacks, the tools and the
  -- normalizer raise, what a batch adds to the journal has, of each call, no more starts than ends.
  pub execute_sequentially-paired :
      (id : String) (runs : List Run) (s : Session)
      → All Accepts runs
      → starts id (execute_sequentially python explain turn_id runs s).1.journal + ends id s.journal
        ≤ starts id s.journal
          + ends id (execute_sequentially python explain turn_id runs s).1.journal
  unfolding execute_sequentially
  execute_sequentially-paired id [] s h = omega arith
  execute_sequentially-paired id (run ∷ runs) s h =
      sequence-Paired id s (execute_call python explain turn_id run s) runs
        (execute_call-Paired id run s h.0) (λ t. execute_sequentially-paired id runs t h.1)
