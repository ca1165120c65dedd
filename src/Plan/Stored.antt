-- ===== src/Plan/Stored.antt =====
-- agent_core/plan.py: what validation and the persisted form keep of a plan.
use nosis.Base.{◌≡◌, refl, ap, ◌∙◌, arith, String, Option, none, some, List, [], ◌∷◌, All, returned}
use nosis.Base.Json.{Json, get}
use nosis.Base.Texts.{strip-strip}
use nosis.Plan.{
  PlanStep, PlanSnapshot, stripped_outcome, make_step, check_step, stripped, outcome_of,
  outcome_field, step_to_dict, steps_to_items, step_from, steps_from, to_dict, from_dict,
}

stripped_outcome-stripped_outcome :
    (o : Option String) → stripped_outcome (stripped_outcome o) ≡ stripped_outcome o
stripped_outcome-stripped_outcome none = refl
stripped_outcome-stripped_outcome (some s) = ground (arith, strip-strip s)

stripped-stripped : (step : PlanStep) → stripped (stripped step) ≡ stripped step
stripped-stripped step =
    let id = strip-strip step.id in
    let title = strip-strip step.title in
    let outcome = stripped_outcome-stripped_outcome step.outcome in
    λ i. record step { id = id i; title = title i; outcome = outcome i }

check_step_same : (step valid : PlanStep) → check_step step ≡ returned valid → step ≡ valid
unfolding check_step
check_step_same step valid h = ground arith

-- A step that validation let pass is what validation makes of it: validating twice is validating
-- once.
pub make_step_idempotent :
    (step valid : PlanStep) → make_step step ≡ returned valid → make_step valid ≡ returned valid
make_step_idempotent step valid h =
    let same : stripped step ≡ valid =
      unfold make_step in check_step_same (stripped step) valid h in
    let again : make_step (stripped step) ≡ returned valid =
      unfold make_step in ap check_step (stripped-stripped step) ∙ h in
    rw same at again

abbrev pub IsStep : PlanStep → Type 0
IsStep step = make_step step ≡ returned step

outcome_of-outcome_field :
    (o : Option String) → outcome_of (get "outcome" (outcome_field o)) ≡ returned o
outcome_of-outcome_field none = refl
outcome_of-outcome_field (some s) = refl

module _ (repr : Json → String) where
  step_from-step_to_dict :
      (step : PlanStep)
      → IsStep step
      → step_from repr (Json.object (step_to_dict step)) ≡ returned step
  unfolding step_from
  step_from-step_to_dict step h = rw (outcome_of-outcome_field step.outcome) h

  steps_from-steps_to_items :
      (steps : List PlanStep)
      → All IsStep steps
      → steps_from repr (steps_to_items steps) ≡ returned steps
  unfolding steps_from steps_to_items
  steps_from-steps_to_items [] h = refl
  steps_from-steps_to_items (step ∷ steps) h =
      rw (outcome_of-outcome_field step.outcome, h.0, steps_from-steps_to_items steps h.1)

  -- A plan of validated steps is read back from its persisted form as it was.
  pub from_dict-to_dict :
      (p : PlanSnapshot) → All IsStep p.steps → from_dict repr (to_dict p) ≡ returned p
  unfolding from_dict to_dict
  from_dict-to_dict p h = rw (steps_from-steps_to_items p.steps h)
