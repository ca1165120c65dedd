-- ===== src/Schedule/Occurrence/First.antt =====
-- agent_core/scheduler.py: the loop of `_next_occurrence` finds the first minute that matches.
use nosis.Base.{
  ℕ, zero, suc, ◌+◌, ◌≤◌, ◌<◌, ◌≡◌, refl, arith, subst, ltb, ltb→lt, Bool-cases, inl, inr, String,
  Bool, true, false, Option, none, some, Result, returned, raised,
}
use nosis.Base.Json.{PyError}
use nosis.Schedule.Cron.{cron_matches}
use nosis.Schedule.Occurrence.{Calendar, local_time, first_match}

module _ (cal : Calendar) (expression : String) where
  abbrev pub matches : ℕ → Result PyError Bool
  matches n = cron_matches expression (local_time cal n)

  -- No minute from `low` on and before `high` matches.
  abbrev pub NoneMatches : ℕ → ℕ → Type 0
  NoneMatches low high = (n : ℕ) → low ≤ n → n < high → matches n ≡ returned false

  -- The first match among so many minutes from the cursor on, or that there is none.
  abbrev pub IsFirstMatch : (rounds cursor : ℕ) → Option ℕ → Type 0
  IsFirstMatch rounds cursor none = NoneMatches cursor (cursor + rounds)
  IsFirstMatch rounds cursor (some n) =
      (cursor ≤ n) × (n < cursor + rounds) × (matches n ≡ returned true) × NoneMatches cursor n

  abbrev IsFirstIfReturned : ℕ → ℕ → Result PyError (Option ℕ) → Type 0
  IsFirstIfReturned rounds cursor (raised e) = Unit
  IsFirstIfReturned rounds cursor (returned o) = IsFirstMatch rounds cursor o

  none_before :
      (low high : ℕ)
      → matches low ≡ returned false
      → NoneMatches (low + 1) high
      → NoneMatches low high
  none_before low high h k n above below = elim (Bool-cases (ltb low n)) [
    | inl later ↦ k n (omega (arith, ltb→lt low n later)) below
    | inr same ↦
        let here : low ≡ n = ground (arith, above, same) in
        subst (λ i. matches i ≡ returned false) here h
  ]

  one_before :
      (rounds cursor : ℕ) (r : Result PyError (Option ℕ))
      → matches cursor ≡ returned false
      → IsFirstIfReturned rounds (cursor + 1) r
      → IsFirstIfReturned (suc rounds) cursor r
  one_before rounds cursor (raised e) h k = tt
  one_before rounds cursor (returned none) h k =
      none_before cursor (cursor + suc rounds) h (subst (NoneMatches (cursor + 1)) (omega arith) k)
  one_before rounds cursor (returned (some n)) h k =
      (omega (arith, k.0), omega (arith, k.1), k.2, none_before cursor n h k.3)

  first_match-IsFirst :
      (rounds cursor : ℕ)
      → IsFirstIfReturned rounds cursor (first_match cal rounds expression cursor)
  unfolding first_match
  first_match-IsFirst zero cursor = λ n above below. absurd (omega (arith, above, below))
  first_match-IsFirst (suc rounds) cursor =
      decided (matches cursor) refl (first_match-IsFirst rounds (cursor + 1))
    where
      decided :
          (m : Result PyError Bool)
          → matches cursor ≡ m
          → IsFirstIfReturned rounds (cursor + 1) (first_match cal rounds expression (cursor + 1))
          → IsFirstIfReturned (suc rounds) cursor (elim m [
            | raised e ↦ raised e
            | returned true ↦ returned (some cursor)
            | returned false ↦ first_match cal rounds expression (cursor + 1)
          ])
      decided (raised e) h k = tt
      decided (returned true) h k =
          (omega arith, omega arith, h, λ n above below. absurd (omega (arith, above, below)))
      decided (returned false) h k = one_before rounds cursor _ h k

  -- The loop of `_next_occurrence` over the minutes from the cursor on returns the first that matches,
  -- if one of them does, and otherwise none.
  pub first_match-IsFirstMatch :
      (rounds cursor : ℕ) (o : Option ℕ)
      → first_match cal rounds expression cursor ≡ returned o
      → IsFirstMatch rounds cursor o
  first_match-IsFirstMatch rounds cursor o h =
      subst (IsFirstIfReturned rounds cursor) h (first_match-IsFirst rounds cursor)
