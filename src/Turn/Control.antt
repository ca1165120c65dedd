-- ===== src/Turn/Control.antt =====
-- agent_core/turn_control.py: `TurnControl`.
use nosis.Base.{String, Bool, true, false, List, [], ◌∷◌, Option, none, some, ◌||◌, if◌then◌else◌}
use nosis.Turn.Mailbox.{UserSteer, Mailbox, empty, submit, drain, drain_or_close, close}

pub record Control : Type 0 where
  pub steering : Mailbox
  pub cancelled : Bool
  pub finished : Bool

abbrev pub fresh : Control
fresh = record { steering = empty; cancelled = false; finished = false }

abbrev pub is_over : Control → Bool
is_over c = c.cancelled || c.finished

unfoldable pub steer : Control → String → String → Bool × Control
unfolding submit
steer c steer_id text =
    if is_over c
    then (false, c)
    else let (accepted, steering) =
        submit c.steering (record { steer_id = steer_id; text = text }) in
      (accepted, record c { steering = steering })

unfoldable pub drain_steering : Control → List UserSteer × Control
unfolding drain
drain_steering c =
    if is_over c
    then ([], c)
    else let (steers, steering) = drain c.steering in (steers, record c { steering = steering })

-- `if not steers: self._finished = True`
finish_with : Control → List UserSteer → Mailbox → List UserSteer × Control
finish_with c [] steering = ([], record c { steering = steering; finished = true })
finish_with c (s ∷ steers) steering = (s ∷ steers, record c { steering = steering })

unfoldable pub finish : Control → List UserSteer × Control
unfolding drain_or_close finish_with
finish c =
    if is_over c
    then ([], c)
    else let (steers, steering) = drain_or_close c.steering in finish_with c steers steering

unfoldable pub cancel : Control → Bool × Control
unfolding close
cancel c =
    if is_over c
    then (false, c)
    else (true, record c { cancelled = true; steering = close c.steering })

-- The property `cancelled`; `external` is what the callback `external_cancelled` answers, if one
-- was given.
unfoldable pub is_cancelled : Option Bool → Control → Bool
is_cancelled none c = c.cancelled
is_cancelled (some external) c = c.cancelled || external
