-- ===== src/Context/Projection/Tiling.antt =====
-- agent_core/projection.py: the units cover the history without gaps.
use nosis.Base.{
  ℕ, suc, zero, ◌+◌, ◌≤◌, ◌<◌, ◌≡◌, refl, arith, subst, List, [], ◌∷◌, String, length, Bool-cases,
  inl, inr,
}
use nosis.Session.Message.{Message}
use nosis.Context.Projection.{
  ContextUnit, Batch, take_one, take_batch, follows, calls_tools, single_unit, units_from,
  project_context_units, empty_batch, call_ids,
}

-- Each unit starts where the one before it ends, and has a message at least.
abbrev pub IsTiling : ℕ → ℕ → List ContextUnit → Type 0
IsTiling start end [] = start ≡ end
IsTiling start end (u ∷ us) = (u.start ≡ start) × (u.start < u.end) × IsTiling u.end end us

take_one-taken :
    (ids : List String) (m : Message) (b : Batch) → (take_one ids m b).taken ≡ suc b.taken
unfolding take_one
take_one-taken ids m b = ground arith

-- No message is lost: what was taken and what is left.
take_batch-length :
    (ids : List String) (b : Batch) (ms : List Message)
    → (take_batch ids b ms).taken + length (take_batch ids b ms).rest ≡ b.taken + length ms
unfolding take_batch
take_batch-length ids b [] = refl
take_batch-length ids b (m ∷ ms) = elim (Bool-cases (follows m)) [
  | inl more ↦
      rw more (omega (arith, take_batch-length ids (take_one ids m b) ms, take_one-taken ids m b))
  | inr ends ↦ rw ends refl
]

units_from-IsTiling :
    (fuel index : ℕ) (ms : List Message)
    → length ms ≤ fuel
    → IsTiling index (index + length ms) (units_from fuel index ms)
unfolding units_from single_unit
units_from-IsTiling zero index [] h = omega arith
units_from-IsTiling zero index (m ∷ ms) h = omega (arith, h)
units_from-IsTiling (suc fuel) index [] h = omega arith
units_from-IsTiling (suc fuel) index (m ∷ ms) h =
    let b = take_batch (call_ids m) empty_batch ms in
    let sum = take_batch-length (call_ids m) empty_batch ms in
    elim (Bool-cases (calls_tools m)) [
      | inl calls ↦ rw calls (
        refl,
        omega arith,
        subst (λ e. IsTiling (index + 1 + b.taken) e (units_from fuel (index + 1 + b.taken) b.rest))
            (omega (arith, sum))
            (units_from-IsTiling fuel (index + 1 + b.taken) b.rest (omega (arith, sum, h))),
      )
      | inr alone ↦ rw alone (
        refl,
        omega arith,
        subst (λ e. IsTiling (index + 1) e (units_from fuel (index + 1) ms)) (omega arith)
            (units_from-IsTiling fuel (index + 1) ms (omega (arith, h))),
      )
    ]

-- The units of a history follow one another without a gap or an overlap, from the start index to the
-- history's end, and none is empty: each message is in the span of one unit.
pub project_context_units-IsTiling :
    (start_index : ℕ) (history : List Message)
    → IsTiling start_index
        (start_index + length history)
        (project_context_units start_index history)
unfolding project_context_units
project_context_units-IsTiling start_index history =
    units_from-IsTiling (length history) start_index history (omega arith)
