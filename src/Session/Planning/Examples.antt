-- ===== src/Session/Planning/Examples.antt =====
-- agent_core/plan.py: a plan and its next revision.
use nosis.Base.{◌≡◌, refl, none, some, List, [], ◌∷◌, All, returned}
use nosis.Base.Texts.{strip, rstrip, lstrip, is_space}
use nosis.Plan.{PlanStep, PlanSnapshot, make_step, check_step}
use nosis.Plan.Stored.{IsStep}
use nosis.Session.State.{Session, new_session}
use nosis.Session.Planning.{IsNext, update, update-returns}
use nosis.Session.Examples.{python, at}

abbrev steps : List PlanStep
steps =
    record { id = "1"; title = "read"; status = "completed"; outcome = some "done" }
    ∷ record { id = "2"; title = "write"; status = "pending"; outcome = none }
    ∷ []

steps-IsStep : All IsStep steps
unfolding make_step check_step strip rstrip lstrip is_space
steps-IsStep = (refl, (refl, tt))

abbrev planned : Session
planned = (update python (at 1) "p" none "goal" steps (new_session (some []))).1

update-returns_example :
    (p : PlanSnapshot) × ((update python (at 2) "q" none "goal" steps planned).0 ≡ returned p)
    × ((update python (at 2) "q" none "goal" steps planned).1.plan ≡ some p)
    × IsNext "q" planned.plan "goal" steps p
update-returns_example = update-returns python (at 2) "q" "goal" steps planned refl steps-IsStep
