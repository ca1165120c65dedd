-- ===== src/Loop/Guard/Repetition.antt =====
-- agent_core/loop_policy.py: which sequences of batches `ToolCallRepetitionGuard` refuses.
use mathlib.Core.List.{flatten}
use native.Mathlib.Numerals.{add-one}
use nosis.Base.{
  ℕ, zero, suc, ◌+◌, ◌≤◌, ◌<◌, String, ◌≡◌, ◌≢◌, ◌↔◌, ◌⊎◌, inl, inr, refl, true, false, List, [],
  ◌∷◌, ◌++◌, Option, none, some, arith, eq_iff, Bool-cases, ltb, ltb→lt, ap, if◌then◌else◌, Result,
  returned, raised, ◌>>=◌, IsOk,
}
use nosis.Loop.Guard.{
  ToolCall, LimitExceeded, Key, key_eq, is_previous, Guard, new, key_of, keys, check_from, commit,
  check,
}

-- The first `n` keys are `k`.
abbrev pub StartsRun : ℕ → Key → List Key → Type 0
StartsRun zero k ks = Unit
StartsRun (suc n) k [] = ⊥
StartsRun (suc n) k (j ∷ ks) = (j ≡ k) × StartsRun n k ks

-- Somewhere `n` keys in a row are the same.
abbrev pub Repeats : ℕ → List Key → Type 0
Repeats n [] = ⊥
Repeats n (k ∷ ks) = StartsRun n k (k ∷ ks) ⊎ Repeats n ks

abbrev pub times : ℕ → Key → List Key → List Key
times zero k ks = ks
times (suc n) k ks = k ∷ times n k ks

key_eq_iff : (a b : Key) → (key_eq a b ≡ true) ↔ (a ≡ b)
key_eq_iff a b = (
  λ h. ground (arith, eq_iff a.name b.name, eq_iff a.arguments b.arguments),
  λ h. ground (arith, eq_iff a.name b.name, eq_iff a.arguments b.arguments),
)

module _ (k : Key) where
  times-cons : (n : ℕ) (ks : List Key) → times n k (k ∷ ks) ≡ k ∷ times n k ks
  times-cons zero ks = refl
  times-cons (suc n) ks = ap (λ l. k ∷ l) (times-cons n ks)

  Repeats-times : (m n : ℕ) (ks : List Key) → Repeats m ks → Repeats m (times n k ks)
  Repeats-times m zero ks h = h
  Repeats-times m (suc n) ks h = inr (Repeats-times m n ks h)

  StartsRun-times : (n : ℕ) (ks : List Key) → StartsRun n k (times n k ks)
  StartsRun-times zero ks = tt
  StartsRun-times (suc n) ks = (refl, StartsRun-times n ks)

  -- Fewer copies than the run wants, and no further copy behind them.
  module _ (ks : List Key) (ends : (m : ℕ) → ¬ StartsRun (suc m) k ks) where
    not-StartsRun : (n m : ℕ) → n ≤ m → ¬ StartsRun (suc m) k (times n k ks)
    not-StartsRun zero m le h = ends m h
    not-StartsRun (suc n) zero le h = absurd (omega arith)
    not-StartsRun (suc n) (suc m) le h = not-StartsRun n m (omega arith) h.1

    Repeats-of_times : (n m : ℕ) → n ≤ m → Repeats (suc m) (times n k ks) → Repeats (suc m) ks
    Repeats-of_times zero m le h = h
    Repeats-of_times (suc n) m le (inl run) = absurd (not-StartsRun (suc n) m le run)
    Repeats-of_times (suc n) m le (inr h) = Repeats-of_times n m (omega arith) h

key_eq-false : (a b : Key) → key_eq a b ≡ false → a ≢ b
key_eq-false a b h e = cc ((key_eq_iff a b).1 e)

-- One copy more than the limit.
overrun :
    (n limit : ℕ) (k j : Key) (ks : List Key)
    → n ≤ limit
    → limit < n + 1
    → j ≡ k
    → Repeats (suc limit) (times n k (j ∷ ks))
overrun n limit k j ks le lt e =
    let same : limit ≡ n = omega arith in
    rw (same, e, times-cons k n ks) (inl (refl, StartsRun-times k n ks))

times-add_one :
    (n : ℕ) (k j : Key) (ks : List Key) → j ≡ k → times (n + 1) j ks ≡ times n k (j ∷ ks)
times-add_one n k j ks e = rw (add-one, e, times-cons k n ks)

StartsRun-short : (n : ℕ) (k : Key) (ks : List Key) → n < 1 → StartsRun n k ks
StartsRun-short zero k ks lt = tt
StartsRun-short (suc n) k ks lt = absurd (omega arith)

module _ {A : Type 0} (dumps : A → String) (limit : ℕ) where
  abbrev Passes : Option Key → ℕ → List (ToolCall A) → Type 0
  Passes previous count calls = IsOk (check_from dumps limit previous count calls)

  -- With `count` copies of `k` behind it the loop passes exactly the calls that make no run.
  check_from_iff :
      (calls : List (ToolCall A)) (k : Key) (count : ℕ)
      → count ≤ limit
      → Passes (some k) count calls ↔ (¬ Repeats (suc limit) (times count k (keys dumps calls)))
  unfolding check_from
  check_from_iff [] k count le = (λ _ h. Repeats-of_times k [] (λ m x. x) count limit le h, λ _. tt)
  check_from_iff (call ∷ calls) k count le =
      let key = key_of dumps call in
      let again = check_from_iff calls key (count + 1) in
      let first = check_from_iff calls key 1 in
      elim (Bool-cases (key_eq key k)) [
        | inl same ↦ elim (Bool-cases (ltb limit (count + 1))) [
          | inl over ↦
              rw (same, over)
                (
                  λ h. absurd h,
                  λ none. none (
                      overrun count limit k key (keys dumps calls) le (ltb→lt _ _ over)
                        ((key_eq_iff key k).0 same)),
                )
          | inr under ↦
              rw (same, under)
                (rw (times-add_one count k key (keys dumps calls) ((key_eq_iff key k).0 same)) at
                  (again (ground arith)))
        ]
        | inr other ↦ elim (Bool-cases (ltb limit 1)) [
          | inl over ↦
              rw (other, over)
                (
                  λ h. absurd h,
                  λ none. none (
                      Repeats-times k (suc limit) count _ (
                        inl
                          (refl, StartsRun-short limit key (keys dumps calls) (ltb→lt _ _ over)))),
                )
          | inr under ↦
              let ends = λ (m : ℕ) (h : StartsRun (suc m) k (key ∷ keys dumps calls)).
                key_eq-false key k other h.0 in
              rw (other, under)
                (
                  λ p r.
                      (first (ground arith)).0 p
                        (Repeats-of_times k (key ∷ keys dumps calls) ends count limit le r),
                  λ none.
                      (first (ground arith)).1 (λ r. none (Repeats-times k (suc limit) count _ r)),
                )
        ]
      ]

  -- The same from a guard that has seen nothing.
  check_from_none_iff :
      (calls : List (ToolCall A)) → Passes none 0 calls ↔ (¬ Repeats (suc limit) (keys dumps calls))
  unfolding check_from
  check_from_none_iff [] = (λ _ h. h, λ _. tt)
  check_from_none_iff (call ∷ calls) =
      let key = key_of dumps call in
      elim (Bool-cases (ltb limit 1)) [
        | inl over ↦ rw over (
          λ h. absurd h,
          λ no_run.
              no_run (inl (refl, StartsRun-short limit key (keys dumps calls) (ltb→lt _ _ over))),
        )
        | inr under ↦ rw under (check_from_iff calls key 1 (ground arith))
      ]

  check_from-append :
      (xs ys : List (ToolCall A)) (previous : Option Key) (count : ℕ)
      → check_from dumps limit previous count (xs ++ ys) ≡ (
          check_from dumps limit previous count xs >>= λ state.
          check_from dumps limit state.0 state.1 ys)
  unfolding check_from
  check_from-append [] ys previous count = refl
  check_from-append (call ∷ xs) ys previous count =
      let key = key_of dumps call in
      let count' = if is_previous key previous then count + 1 else 1 in
      let ih = check_from-append xs ys (some key) count' in
      elim (Bool-cases (ltb limit count')) [ inl over ↦ rw over | inr under ↦ rw under ih ]

module _ {A : Type 0} (dumps : A → String) where
  abbrev pub Checked : Type 0
  Checked = Result LimitExceeded (Unit {0}) × Guard

  -- The first error ends the turn.
  and_then : Checked → (Guard → Checked) → Checked
  and_then (returned _, g) rest = rest g
  and_then (raised e, g) rest = (raised e, g)

  -- The batches of a turn between two resets.
  unfoldable pub check_batches : Guard → List (List (ToolCall A)) → Checked
  unfolding and_then
  check_batches g [] = (returned tt, g)
  check_batches g (batch ∷ batches) =
      and_then (check dumps g batch) (λ g'. check_batches g' batches)

  and_then-commit :
      (rest : Guard → Checked) (calls : List (ToolCall A)) (g : Guard)
      (r : Result LimitExceeded (Option Key × ℕ))
      → ((g' : Guard)
          → IsOk (rest g').0 ↔ IsOk (check_from dumps g'.limit g'.previous g'.count calls))
      → IsOk (and_then (commit dumps g r) rest).0
        ↔ IsOk (r >>= λ state. check_from dumps g.limit state.0 state.1 calls)
  unfolding and_then commit
  and_then-commit rest calls g (returned (previous, count)) h =
      h (record g { previous = previous; count = count })
  and_then-commit rest calls g (raised e) h = (λ x. x, λ x. x)

  check_batches-flatten :
      (batches : List (List (ToolCall A))) (g : Guard)
      → IsOk (check_batches g batches).0
        ↔ IsOk (check_from dumps g.limit g.previous g.count (flatten batches))
  unfolding check_batches check flatten
  check_batches-flatten [] g = unfold check_from in (λ h. h, λ h. h)
  check_batches-flatten (batch ∷ batches) g =
      rw (check_from-append dumps g.limit batch (flatten batches) g.previous g.count) (
        and_then-commit (λ g'. check_batches g' batches) (flatten batches) g
          (check_from dumps g.limit g.previous g.count batch) (check_batches-flatten batches))

  -- From a reset guard the batches of a turn pass exactly if nowhere in them, across the borders
  -- of batches too, do more than `limit` calls in a row have the same name and arguments.
  pub check_batches_iff :
      (limit : ℕ) (batches : List (List (ToolCall A)))
      → IsOk (check_batches (new limit) batches).0
        ↔ (¬ Repeats (suc limit) (keys dumps (flatten batches)))
  unfolding new
  check_batches_iff limit batches =
      let flat = check_batches-flatten batches (new limit) in
      let runs = check_from_none_iff dumps limit (flatten batches) in
      (λ h. runs.0 (flat.0 h), λ h. flat.1 (runs.1 h))
