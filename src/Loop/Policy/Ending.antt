-- ===== src/Loop/Policy/Ending.antt =====
-- agent_core/loop_policy.py: the `while pending` loop of `after_response` ends, if the background jobs
-- are over after some number of waits.
use nosis.Base.{
  ℕ, zero, suc, ◌≡◌, ◌≢◌, refl, Bool, true, false, Option, none, some, arith, returned, ◌⊎◌, inl,
  inr,
}
use nosis.Turn.Control.{Control}
use nosis.Loop.Policy.Leads.{Leads, Leads-bind, Leads-if, Leads-ok, Leads-any}
use nosis.Loop.Policy.{
  State, Callbacks, Action, ◌>>=◌, pure, raise_if_cancelled, apply_jobs, wait, wait_round,
  apply_steering, wait_loop, run_before_finish, close_turn, after_response,
}

module _ {W : Type 0} (callbacks : Callbacks W) where
  -- The jobs are over after at most so many waits, whatever is sent to the turn. A wait that ends
  -- without an update counts as well.
  unfoldable pub Settles : ℕ → W → Type 0
  Settles zero w = (c : Option Control) → (callbacks.apply_jobs (c, w)).0.1 ≡ false
  Settles (suc n) w =
      (c : Option Control)
      → ((callbacks.apply_jobs (c, w)).0.1 ≡ false)
        ⊎ ((c' : Option Control)
            → Settles n (callbacks.wait_for_job (c', (callbacks.apply_jobs (c, w)).1.1)).1)

  -- The same where it is known whether jobs are pending.
  unfoldable Within : ℕ → Bool → W → Type 0
  Within n false w = Unit
  Within zero true w = ⊥
  Within (suc n) true w = (c : Option Control) → Settles n (callbacks.wait_for_job (c, w)).1

  abbrev Decided : Option Bool → State W → Type 0
  Decided o s = o ≢ none

  abbrev Unless : (W → Type 0) → Bool → State W → Type 0
  Unless P true s = Unit
  Unless P false s = P s.world

  raise_if_cancelled-keeps :
      (P : W → Type 0) → Leads (λ s. P s.world) (raise_if_cancelled callbacks) (λ _ s. P s.world)
  unfolding raise_if_cancelled
  raise_if_cancelled-keeps P = record { at = λ s h. ground (arith, h) }

  apply_steering-keeps :
      (P : W → Type 0) → Leads (λ s. P s.world) (apply_steering callbacks false) (Unless P)
  unfolding apply_steering raise_if_cancelled ◌>>=◌
  apply_steering-keeps P = record { at = λ s h. ground (arith, h) }

  wait-Settles :
      (n : ℕ) → Leads (λ s. Within (suc n) true s.world) (wait callbacks) (λ _ s. Settles n s.world)
  unfolding wait Within
  wait-Settles n = record { at = λ s h. h s.control }

  pending-Within :
      (n : ℕ) (w : W) (c : Option Control) (b : Bool)
      → Settles n w
      → (callbacks.apply_jobs (c, w)).0.1 ≡ b
      → Within n b (callbacks.apply_jobs (c, w)).1.1
  unfolding Settles Within
  pending-Within n w c false h e = tt
  pending-Within zero w c true h e = ground (arith, h c, e)
  pending-Within (suc n) w c true h e = elim (h c) [
    | inl over ↦ absurd (ground (arith, over, e))
    | inr more ↦ more
  ]

  apply_jobs-Within :
      (n : ℕ)
      → Leads
          (λ s. Settles n s.world)
          (apply_jobs callbacks)
          (λ answer s. Within n answer.1 s.world)
  unfolding apply_jobs ◌>>=◌
  apply_jobs-Within n = record {
    at = λ s h. ground (arith, pending-Within n s.world s.control _ h refl);
  }

  decide : {P : State W → Type 0} (b : Bool) → Leads P (pure (some b)) Decided
  decide b = record { at = λ s p e. cc }

  wait_round-Decided :
      (n : ℕ) (again : Bool → Action W (Option Bool))
      → ((pending : Bool) → Leads (λ s. Within n pending s.world) (again pending) Decided)
      → Leads (λ s. Within (suc n) true s.world) (wait_round callbacks again) Decided
  unfolding wait_round
  wait_round-Decided n again more = Leads-bind (raise_if_cancelled-keeps (Within (suc n) true)) λ _.
      Leads-bind (apply_steering-keeps (Within (suc n) true)) λ steered.
        Leads-if (Unless (Within (suc n) true)) steered (decide true) (
          Leads-bind (wait-Settles n) λ _. Leads-bind (raise_if_cancelled-keeps (Settles n)) λ _.
            Leads-bind (apply_jobs-Within n) λ answer.
              Leads-if (λ _ s. Within n answer.1 s.world) answer.0 (decide true) (more answer.1))

  wait_loop-Decided :
      (fuel : ℕ) (pending : Bool)
      → Leads (λ s. Within fuel pending s.world) (wait_loop callbacks fuel pending) Decided
  unfolding wait_loop Within
  wait_loop-Decided fuel false = decide false
  wait_loop-Decided zero true = record { at = λ s h. absurd h }
  wait_loop-Decided (suc fuel) true =
      wait_round-Decided fuel (wait_loop callbacks fuel) (wait_loop-Decided fuel)

  close_turn-Decided :
      (waited : Option Bool) → Leads (λ _. waited ≢ none) (close_turn callbacks waited) Decided
  unfolding close_turn
  close_turn-Decided none = record { at = λ s h. absurd (h refl) }
  close_turn-Decided (some true) = decide true
  close_turn-Decided (some false) =
      Leads-bind (Leads-any (run_before_finish callbacks callbacks.before_finish)) λ corrected.
        Leads-if (λ _ _. Unit) corrected (decide true)
          (Leads-bind (Leads-any (apply_steering callbacks true)) λ closing. decide closing)

  after_response-Decided :
      (fuel : ℕ) → Leads (λ s. Settles fuel s.world) (after_response callbacks fuel) Decided
  unfolding after_response
  after_response-Decided fuel = Leads-bind (raise_if_cancelled-keeps (Settles fuel)) λ _.
      Leads-bind (apply_jobs-Within fuel) λ answer.
        Leads-if (λ _ s. Within fuel answer.1 s.world) answer.0 (decide true)
          (Leads-bind (wait_loop-Decided fuel answer.1) close_turn-Decided)

  -- If the jobs are over after at most as many waits as there is fuel, `after_response` raises or
  -- decides: it does not wait for ever. A wait that ends without an update is one of them.
  pub after_response_decides :
      (fuel : ℕ) (s s' : State W)
      → Settles fuel s.world
      → after_response callbacks fuel s ≢ (returned none, s')
  after_response_decides fuel s s' settles e =
      Leads-ok s s' none (after_response-Decided fuel) settles e refl
