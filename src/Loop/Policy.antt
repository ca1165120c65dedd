-- ===== src/Loop/Policy.antt =====
-- agent_core/loop_policy.py: `TurnContinuationPolicy`. `W` is the rest of the runtime. A callback
-- acts on the turn control too, since other threads may steer or cancel while it runs; it does not
-- reach the repetition guard, which the policy alone writes.
pub mod Leads
pub mod Outcome
pub mod Ending
mod Examples
use nosis.Base.{
  ℕ, zero, suc, Bool, true, false, List, [], ◌∷◌, Option, none, some, Result, returned, raised,
  if◌then◌else◌,
}
use nosis.Turn.Mailbox.{UserSteer}
use nosis.Turn.Control.{Control, drain_steering, finish, is_cancelled}
use nosis.Loop.Guard.{Guard, reset}

-- `AgentCancelled`, or an exception of a callback.
pub data Stop : Type 0 where
  agent_cancelled callback_error : Stop

pub record State (W : Type 0) : Type 0 where
  pub control : Option Control
  pub repetition : Guard
  pub world : W

-- What a callback sees: the control and the world.
abbrev pub Shared : Type 0 → Type 0
Shared W = Option Control × W

pub record Callbacks (W : Type 0) : Type 0 where
  -- what the callback `external_cancelled` answers, if one was given
  pub external : W → Option Bool
  pub apply_jobs : Shared W → (Bool × Bool) × Shared W
  pub append_steers : List UserSteer → Shared W → Result Stop (Unit {0}) × Shared W
  pub wait_for_job : Shared W → Shared W
  pub before_finish : Option (Shared W → Result Stop Bool × Shared W)

-- A method mutates the state and may raise. What was written before a raise stays written.
abbrev pub Action : Type 0 → Type 0 → Type 0
Action W A = State W → Result Stop A × State W

module _ {W A B : Type 0} where
  abbrev pub and_then : Result Stop A × State W → (A → Action W B) → Result Stop B × State W
  and_then (returned a, s) f = f a s
  and_then (raised e, s) f = (raised e, s)

  infixl 5 ◌>>=◌
  unfoldable pub ◌>>=◌ : Action W A → (A → Action W B) → Action W B
  ◌>>=◌ m f s = and_then (m s) f

infixl 5 ◌>>◌
abbrev pub ◌>>◌ : {W A : Type 0} → Action W (Unit {0}) → Action W A → Action W A
m >> k = m >>= λ _. k

module _ {W A : Type 0} where
  abbrev pub pure : A → Action W A
  pure a s = (returned a, s)

  -- A callback acts on what it shares with the policy.
  abbrev pub call : (Shared W → Result Stop A × Shared W) → Action W A
  call f s =
      let (result, shared) = f (s.control, s.world) in
      (result, record s { control = shared.0; world = shared.1 })

module _ {W : Type 0} (callbacks : Callbacks W) where
  open callbacks use {external, append_steers, wait_for_job}

  abbrev pub reset_repetition : Action W (Unit {0})
  reset_repetition s = (returned tt, record s { repetition = reset s.repetition })

  unfoldable pub raise_if_cancelled : Action W (Unit {0})
  raise_if_cancelled s = elim s.control [
    | none ↦ (returned tt, s)
    | some c ↦
        if is_cancelled (external s.world) c then (raised agent_cancelled, s) else (returned tt, s)
  ]

  unfoldable pub apply_jobs : Action W (Bool × Bool)
  apply_jobs = do
    answer ←
        call
          (λ shared. let (answer, after) = callbacks.apply_jobs shared in (returned answer, after))
    if answer.0 then (reset_repetition >> pure answer) else pure answer

  abbrev take_steers : Bool → Control → List UserSteer × Control
  take_steers finishing c = if finishing then finish c else drain_steering c

  -- `finish` or `drain_steering` of the control.
  unfoldable pub steers : Bool → Control → Action W (List UserSteer)
  steers finishing c s =
      let (taken, c') = take_steers finishing c in (returned taken, record s { control = some c' })

  use_steers : List UserSteer → Action W Bool
  use_steers [] = pure false
  use_steers (x ∷ xs) = do call (append_steers (x ∷ xs)); reset_repetition; pure true

  pub steer_with : Bool → Control → Action W Bool
  unfolding use_steers steers
  steer_with finishing c = do taken ← steers finishing c; raise_if_cancelled; use_steers taken

  unfoldable pub apply_steering : Bool → Action W Bool
  unfolding steer_with
  apply_steering finishing s = elim s.control [
    | none ↦ (returned false, s)
    | some c ↦ steer_with finishing c s
  ]

  -- The callback `wait_for_job`, whose answer is not used.
  unfoldable pub wait : Action W (Unit {0})
  wait = call (λ shared. (returned tt, wait_for_job shared))

  -- One round of the `while pending` loop. `again` is what follows if jobs are still pending.
  wait_round : (Bool → Action W (Option Bool)) → Action W (Option Bool)
  wait_round again = do
    raise_if_cancelled
    steered ← apply_steering false
    if steered then pure (some true) else do
      wait
      raise_if_cancelled
      answer ← apply_jobs
      if answer.0 then pure (some true) else again answer.1

  -- The loop: whether the turn goes on, `none` if the fuel ran out. `Ending` says which fuel suffices.
  unfoldable pub wait_loop : ℕ → Bool → Action W (Option Bool)
  unfolding wait_round
  wait_loop fuel false = pure (some false)
  wait_loop zero true = pure none
  wait_loop (suc fuel) true = wait_round (wait_loop fuel)

  -- What follows `if before_finish is not None`.
  unfoldable pub run_before_finish : Option (Shared W → Result Stop Bool × Shared W) → Action W Bool
  run_before_finish none = pure false
  run_before_finish (some before_finish) = do
    steered ← apply_steering false
    if steered then pure true else do
      corrected ← call before_finish
      if corrected
          then (do raise_if_cancelled; reset_repetition; _ ← apply_steering false; pure true)
          else (do raise_if_cancelled; pure false)

  close_turn : Option Bool → Action W (Option Bool)
  close_turn none = pure none
  close_turn (some true) = pure (some true)
  close_turn (some false) = do
    corrected ← run_before_finish callbacks.before_finish
    if corrected then pure (some true) else do closing ← apply_steering true; pure (some closing)

  -- Whether another model call is needed after a final answer.
  unfoldable pub after_response : ℕ → Action W (Option Bool)
  unfolding close_turn
  after_response fuel = do
    raise_if_cancelled
    answer ← apply_jobs
    if answer.0 then pure (some true) else do waited ← wait_loop fuel answer.1; close_turn waited
