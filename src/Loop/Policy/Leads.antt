-- ===== src/Loop/Policy/Leads.antt =====
-- Rules for the actions of the policy in agent_core/loop_policy.py: what holds after a run that
-- does not raise.
use nosis.Base.{Bool, true, false, returned, raised, Result, if◌then◌else◌, ◌≡◌, subst}
use nosis.Loop.Policy.{State, Stop, Action, and_then, ◌>>=◌, pure}

-- `Q` holds of the value and the state of a run that does not raise.
abbrev pub Ensures : {W A : Type 0} → (A → State W → Type 0) → Result Stop A × State W → Type 0
Ensures Q (returned a, s) = Q a s
Ensures Q (raised e, s) = Unit

-- From a state with `P`, a run that does not raise ends with `Q`.
pub record Leads {W A : Type 0} (P : State W → Type 0) (m : Action W A) (Q : A → State W → Type 0)
    : Type 0 where
  pub at : (s : State W) → P s → Ensures Q (m s)

and_then-Ensures :
    {W A B : Type 0} (P : A → State W → Type 0) (Q : B → State W → Type 0)
    (r : Result Stop A × State W) (f : A → Action W B)
    → Ensures P r
    → ((a : A) → Leads (P a) (f a) Q)
    → Ensures Q (and_then r f)
and_then-Ensures P Q (returned a, s) f p k = (k a).at s p
and_then-Ensures P Q (raised e, s) f p k = tt

module _ {W : Type 0} where
  pub Leads-bind :
      {A B : Type 0} {P : State W → Type 0} {R : A → State W → Type 0} {Q : B → State W → Type 0}
      {m : Action W A} {f : A → Action W B}
      → Leads P m R
      → ((a : A) → Leads (R a) (f a) Q)
      → Leads P (m >>= f) Q
  unfolding ◌>>=◌
  Leads-bind lm lf = record { at = λ s p. and_then-Ensures _ _ (_) _ (lm.at s p) lf }

  pub Leads-if :
      {A : Type 0} {Q : A → State W → Type 0} (P : Bool → State W → Type 0) (b : Bool)
      {m k : Action W A}
      → Leads (P true) m Q
      → Leads (P false) k Q
      → Leads (P b) (if b then m else k) Q
  Leads-if P true lm lk = lm
  Leads-if P false lm lk = lk

  pub pure-Leads : {A : Type 0} {P : A → State W → Type 0} (a : A) → Leads (P a) (pure a) P
  pure-Leads a = record { at = λ s p. p }

  -- What a rule says of one run.
  pub Leads-ok :
      {A : Type 0} {P : State W → Type 0} {Q : A → State W → Type 0} {m : Action W A}
      (s s' : State W) (a : A)
      → Leads P m Q
      → P s
      → m s ≡ (returned a, s')
      → Q a s'
  Leads-ok {Q = Q} s s' a l p e = subst (Ensures Q) e (l.at s p)

  -- Every run leads somewhere.
  Ensures-any : {A : Type 0} (r : Result Stop A × State W) → Ensures (λ _ _. Unit) r
  Ensures-any (returned a, s) = tt
  Ensures-any (raised e, s) = tt

  pub Leads-any : {A : Type 0} {P : State W → Type 0} (m : Action W A) → Leads P m (λ _ _. Unit)
  Leads-any m = record { at = λ s p. Ensures-any (m s) }
