-- ===== src/Session/Recovery/Keyed.antt =====
-- agent_core/session.py: the dicts of turns, tool executions and jobs; each entry holds its own key.
use nosis.Base.{
  ◌≡◌, refl, sym, ◌∙◌, subst, inl, inr, ap, arith, String, Bool, true, false, Option, none, some,
  List, [], ◌∷◌, All, ◌==◌, ◌&&◌, not, any, Bool-cases, eq→path,
}
use nosis.Base.Texts.{is_empty}
use nosis.Session.State.{Turn, ToolExecution, JobExecution, Replayed}
use nosis.Base.Dict.{find, put, values, find-put}

-- A value that is looked up has the property.
abbrev pub some_has {ℓ} : {V : Type ℓ} → (V → Bool) → Option V → Bool
some_has p none = false
some_has p (some v) = p v

-- A value without the property takes the place at its key.
pub put-closes {ℓ} :
    {V : Type ℓ} (p : V → Bool) (k j : String) (v : V) (d : List (String × V))
    → p v ≡ false
    → some_has p (find j (put k v d)) ≡ (not (k == j) && some_has p (find j d))
put-closes p k j v d h = simp (find-put) (ground (arith, h))

pub absent-closed {ℓ} :
    {V : Type ℓ} (p : V → Bool) (k j : String) (d : List (String × V))
    → none ≡ find k d
    → some_has p (find j d) ≡ (not (k == j) && some_has p (find j d))
absent-closed p k j d h = elim (Bool-cases (k == j)) [
  | inl same ↦
      rw same (subst (λ i. some_has p (find i d) ≡ false) (eq→path k j same) (rw (sym h) refl))
  | inr other ↦ rw other refl
]

module _ {V : Type 0} (key : V → String) (allowed : String → Bool) where
  abbrev pub IsKeyed : List (String × V) → Type 0
  IsKeyed d = All (λ e. (key e.1 ≡ e.0) × (allowed e.0 ≡ true)) d

  pub put-IsKeyed :
      (k : String) (v : V) (d : List (String × V))
      → key v ≡ k
      → allowed k ≡ true
      → IsKeyed d
      → IsKeyed (put k v d)
  put-IsKeyed k v [] q a h = ((q, a), tt)
  put-IsKeyed k v ((j, w) ∷ d) q a h = elim (Bool-cases (j == k)) [
    | inl same ↦ rw same ((q ∙ sym (eq→path j k same), h.0.1), h.1)
    | inr other ↦ rw other (h.0, put-IsKeyed k v d q a h.1)
  ]

  -- What a key finds has that key.
  abbrev pub IsFoundAt : String → Option V → Type 0
  IsFoundAt k none = Unit
  IsFoundAt k (some v) = key v ≡ k

  pub find-IsFoundAt : (k : String) (d : List (String × V)) → IsKeyed d → IsFoundAt k (find k d)
  find-IsFoundAt k [] h = tt
  find-IsFoundAt k ((j, w) ∷ d) h = elim (Bool-cases (j == k)) [
    | inl same ↦ rw same (h.0.0 ∙ eq→path j k same)
    | inr other ↦ rw other (find-IsFoundAt k d h.1)
  ]

  -- One of the values is lost and has the key.
  abbrev pub hits : (V → Bool) → List V → String → Bool
  hits lost vs k = any (λ v. lost v && (allowed (key v) && key v == k)) vs

  pub find-hits :
      (lost : V → Bool) (k : String) (d : List (String × V))
      → IsKeyed d
      → some_has lost (find k d) ≡ true
      → hits lost (values d) k ≡ true
  find-hits lost k [] h q = q
  find-hits lost k ((j, w) ∷ d) h q =
      let own = ap (λ i. i == k) h.0.0 in
      let fine = ap allowed h.0.0 ∙ h.0.1 in
      let rest = find-hits lost k d h.1 in ground (arith, own, fine, rest)

abbrev pub named : String → Bool
named k = not (is_empty k)

abbrev pub any_text : String → Bool
any_text k = true

-- Each turn, tool execution and job stands at its own id; those of turns and tool executions are not
-- empty.
abbrev pub IsWellKeyed : Replayed → Type 0
IsWellKeyed s =
    IsKeyed (λ (turn : Turn). turn.turn_id) named s.turns
    × IsKeyed (λ (execution : ToolExecution). execution.tool_call_id) named s.tool_executions
    × IsKeyed (λ (job : JobExecution). job.job_id) any_text s.jobs
