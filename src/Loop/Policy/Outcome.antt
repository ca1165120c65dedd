-- ===== src/Loop/Policy/Outcome.antt =====
-- agent_core/loop_policy.py: what `after_response` has done when it returns.
use nosis.Base.{
  ℕ, zero, suc, ◌≡◌, refl, ap, Bool, true, false, [], Option, none, some, arith, returned, Result,
}
use nosis.Turn.Control.{Control, finish, is_cancelled}
use nosis.Loop.Guard.{Guard, reset}
use nosis.Loop.Policy.Leads.{Ensures, Leads, Leads-bind, Leads-if, Leads-ok, pure-Leads}
use nosis.Loop.Policy.{
  State, Shared, Stop, Callbacks, Action, ◌>>=◌, call, reset_repetition, raise_if_cancelled,
  apply_jobs, steer_with, wait, wait_round, apply_steering, wait_loop, run_before_finish,
  close_turn, after_response,
}

-- The control is closed: no message can be sent any more.
abbrev pub IsClosed : Option Control → Type 0
IsClosed none = Unit
IsClosed (some c) = (c.finished ≡ true) × (c.cancelled ≡ false)

-- The turn goes on with a fresh repetition guard, or it ends with the guard of before.
abbrev pub Reported :
    {W : Type 0} → (ends : State W → Type 0) → Guard → Option Bool → State W → Type 0
Reported ends g (some true) s = s.repetition ≡ reset g
Reported ends g (some false) s = (s.repetition ≡ g) × ends s
Reported ends g none s = Unit

finish_empty :
    (c : Control)
    → (finish c).0 ≡ []
    → (finish c).1.cancelled ≡ false
    → (finish c).1.finished ≡ true
unfolding finish
finish_empty c e live = ground arith

module _ {W : Type 0} (callbacks : Callbacks W) (g : Guard) where
  abbrev Kept : State W → Type 0
  Kept s = s.repetition ≡ g

  abbrev Steered : Bool → State W → Type 0
  Steered true s = s.repetition ≡ reset g
  Steered false s = s.repetition ≡ g

  abbrev Ends : State W → Type 0
  Ends s = IsClosed s.control

  raise_if_cancelled-Kept : Leads Kept (raise_if_cancelled callbacks) (λ _. Kept)
  unfolding raise_if_cancelled
  raise_if_cancelled-Kept = record { at = λ s e. ground arith }

  apply_steering-Steered :
      (finishing : Bool) → Leads Kept (apply_steering callbacks finishing) Steered
  unfolding apply_steering raise_if_cancelled ◌>>=◌
  apply_steering-Steered finishing = record { at = λ s e. ground arith }

  steer_with-Reported :
      (c : Control) → Leads Kept (steer_with callbacks true c) (λ b. Reported Ends g (some b))
  unfolding steer_with raise_if_cancelled is_cancelled ◌>>=◌
  steer_with-Reported c = record { at = λ s e. ground (arith, finish_empty c) }

  apply_steering-Reported :
      Leads Kept (apply_steering callbacks true) (λ b. Reported Ends g (some b))
  unfolding apply_steering
  apply_steering-Reported = record { at = λ s e. go s e s.control refl }
    where
      go :
          (s : State W)
          → Kept s
          → (c : Option Control) → s.control ≡ c
          → Ensures (λ b. Reported Ends g (some b)) (apply_steering callbacks true s)
      go s e none given = rw (given, apply_steering) (e, rw given tt)
      go s e (some c) given = rw (given, apply_steering) ((steer_with-Reported c).at s e)

  apply_jobs-Steered : Leads Kept (apply_jobs callbacks) (λ answer. Steered answer.0)
  unfolding apply_jobs ◌>>=◌
  apply_jobs-Steered = record { at = λ s e. ground arith }

  call-Kept :
      {A : Type 0} (f : Shared W → Result Stop A × Shared W) → Leads Kept (call f) (λ _. Kept)
  call-Kept f = record { at = λ s e. ground arith }

  wait-Kept : Leads Kept (wait callbacks) (λ _. Kept)
  unfolding wait
  wait-Kept = record { at = λ s e. e }

  abbrev Waited : Option Bool → State W → Type 0
  Waited (some b) s = Steered b s
  Waited none s = Unit

  wait_round-Waited :
      (again : Bool → Action W (Option Bool))
      → ((pending : Bool) → Leads Kept (again pending) Waited)
      → Leads Kept (wait_round callbacks again) Waited
  unfolding wait_round
  wait_round-Waited again more = Leads-bind raise_if_cancelled-Kept λ _.
      Leads-bind (apply_steering-Steered false) λ steered.
        Leads-if Steered steered (pure-Leads {P = Waited} (some true)) (
          Leads-bind wait-Kept λ _. Leads-bind raise_if_cancelled-Kept λ _.
            Leads-bind apply_jobs-Steered λ answer.
              Leads-if Steered answer.0 (pure-Leads {P = Waited} (some true)) (more answer.1))

  wait_loop-Waited :
      (fuel : ℕ) (pending : Bool) → Leads Kept (wait_loop callbacks fuel pending) Waited
  unfolding wait_loop
  wait_loop-Waited fuel false = pure-Leads {P = Waited} (some false)
  wait_loop-Waited zero true = record { at = λ s e. tt }
  wait_loop-Waited (suc fuel) true =
      wait_round-Waited (wait_loop callbacks fuel) (wait_loop-Waited fuel)

  reset_repetition-Steered : Leads Kept (reset_repetition callbacks) (λ _. Steered true)
  reset_repetition-Steered = record { at = λ s e. ap reset e }

  apply_steering-reset : Leads (Steered true) (apply_steering callbacks false) (λ _. Steered true)
  unfolding apply_steering raise_if_cancelled ◌>>=◌ reset
  apply_steering-reset = record { at = λ s e. ground arith }

  run_before_finish-Steered :
      (f : Option (Shared W → Result Stop Bool × Shared W))
      → Leads Kept (run_before_finish callbacks f) Steered
  unfolding run_before_finish
  run_before_finish-Steered none = pure-Leads {P = Steered} false
  run_before_finish-Steered (some f) = Leads-bind (apply_steering-Steered false) λ steered.
      Leads-if Steered steered (pure-Leads {P = Steered} true) (
        Leads-bind (call-Kept f) λ corrected.
          Leads-if (λ _. Kept) corrected
            (Leads-bind raise_if_cancelled-Kept λ _.
              Leads-bind reset_repetition-Steered
                λ _. Leads-bind apply_steering-reset λ _. pure-Leads {P = Steered} true)
            (Leads-bind raise_if_cancelled-Kept λ _. pure-Leads {P = Steered} false))

  close_turn-Reported :
      (waited : Option Bool) → Leads (Waited waited) (close_turn callbacks waited) (Reported Ends g)
  unfolding close_turn
  close_turn-Reported none = record { at = λ s e. tt }
  close_turn-Reported (some true) = pure-Leads {P = Reported Ends g} (some true)
  close_turn-Reported (some false) =
      Leads-bind (run_before_finish-Steered callbacks.before_finish) λ corrected.
        Leads-if Steered corrected (pure-Leads {P = Reported Ends g} (some true)) (
          Leads-bind apply_steering-Reported
            λ closing. pure-Leads {P = Reported Ends g} (some closing))

  after_response-Reported :
      (fuel : ℕ) → Leads Kept (after_response callbacks fuel) (Reported Ends g)
  unfolding after_response
  after_response-Reported fuel = Leads-bind raise_if_cancelled-Kept λ _.
      Leads-bind apply_jobs-Steered λ answer.
        Leads-if Steered answer.0 (pure-Leads {P = Reported Ends g} (some true))
          (Leads-bind (wait_loop-Waited fuel answer.1) close_turn-Reported)

module _ {W : Type 0} (callbacks : Callbacks W) (fuel : ℕ) (s s' : State W) where
  -- When `after_response` ends the turn, the control is finished and not cancelled, so no steering
  -- message is accepted any more, and the repetition guard is as it was.
  pub after_response_ends :
      after_response callbacks fuel s ≡ (returned (some false), s')
      → (s'.repetition ≡ s.repetition) × IsClosed s'.control
  after_response_ends e =
      Leads-ok s s' (some false) (after_response-Reported callbacks s.repetition fuel) refl e

  -- When `after_response` asks for another model call, the repetition guard has been reset.
  pub after_response_continues :
      after_response callbacks fuel s ≡ (returned (some true), s')
      → s'.repetition ≡ reset s.repetition
  after_response_continues e =
      Leads-ok s s' (some true) (after_response-Reported callbacks s.repetition fuel) refl e
