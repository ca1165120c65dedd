-- ===== src/Plan/Examples.antt =====
-- Plans of agent_core/plan.py on small inputs.
use nosis.Base.{◌≡◌, refl, none, some, [], ◌∷◌, returned, raised, All}
use nosis.Base.Json.{value_error}
use nosis.Base.Texts.{strip, rstrip, lstrip, is_space}
use nosis.Plan.{PlanStep, PlanSnapshot, make_step, check_step, to_dict, from_dict}
use nosis.Plan.Stored.{IsStep, from_dict-to_dict}

abbrev typed : PlanStep
typed = record { id = " 1\t"; title = "read "; status = "completed"; outcome = some "  " }

abbrev kept : PlanStep
kept = record { id = "1"; title = "read"; status = "completed"; outcome = none }

make_typed : make_step typed ≡ returned kept
unfolding make_step check_step strip rstrip lstrip is_space
make_typed = refl

early_outcome :
    make_step (record typed { status = "pending"; outcome = some "done" })
    ≡ raised (value_error "plan step outcome is allowed only for completed or blocked steps")
unfolding make_step check_step strip rstrip lstrip is_space
early_outcome = refl

abbrev plan : PlanSnapshot
plan = record {
  plan_id = "p";
  goal = "goal";
  revision = 2;
  steps = kept ∷ record kept { id = "2"; outcome = some "done" } ∷ [];
}

plan-IsStep : All IsStep plan.steps
unfolding make_step check_step strip rstrip lstrip is_space
plan-IsStep = (refl, (refl, tt))

from_dict-to_dict_example : from_dict (λ j. "") (to_dict plan) ≡ returned plan
from_dict-to_dict_example = from_dict-to_dict (λ j. "") plan plan-IsStep
