-- ===== src/Plan.antt =====
-- agent_core/plan.py: the plan of a session, its steps and their persisted form.
pub mod Stored
mod Examples
use nosis.Base.{
  ℕ, suc, ◌+◌, String, Bool, true, false, Option, none, some, List, [], ◌∷◌, not, ◌&&◌, ◌||◌, ◌==◌,
  ltb, any, contains, if◌then◌else◌, Result, returned, raised, ◌>>=◌, ◌>>◌, raise_if, all,
}
use nosis.Base.Json.{
  Json, null, number, string, array, object, Items, nil, item, Fields, end, field, get, also,
  PyError, value_error, type_error, require, as_number, str,
}
use nosis.Base.Texts.{strip, char_count, is_empty}

pub record PlanStep : Type 0 where
  pub id : String
  pub title : String
  pub status : String
  pub outcome : Option String

pub record PlanSnapshot : Type 0 where
  pub plan_id : String
  pub goal : String
  pub revision : ℕ
  pub steps : List PlanStep

abbrev max_plan_step_outcome_chars : ℕ
max_plan_step_outcome_chars = 500

abbrev plan_statuses : List String
plan_statuses = "pending" ∷ "in_progress" ∷ "completed" ∷ "blocked" ∷ []

-- `outcome.strip() if outcome is not None else None`, and the empty text becomes `None`.
abbrev outcome_or_none : String → Option String
outcome_or_none s = if is_empty s then none else some s

abbrev stripped_outcome : Option String → Option String
stripped_outcome none = none
stripped_outcome (some s) = outcome_or_none (strip s)

abbrev outcome_too_long : Option String → Bool
outcome_too_long none = false
outcome_too_long (some s) = ltb max_plan_step_outcome_chars (char_count s)

abbrev is_given : Option String → Bool
is_given none = false
is_given (some s) = true

abbrev stripped : PlanStep → PlanStep
stripped step = record step {
  id = strip step.id;
  title = strip step.title;
  outcome = stripped_outcome step.outcome;
}

-- The tests of `__post_init__`, on the stripped fields.
unfoldable pub check_step : PlanStep → Result PyError PlanStep
check_step step = do
  raise_if (is_empty step.id) (value_error "plan step id must be a non-empty string")
  raise_if (is_empty step.title) (value_error "plan step title must be a non-empty string")
  raise_if (not (contains plan_statuses step.status)) (value_error "invalid plan step status")
  raise_if (outcome_too_long step.outcome) (value_error "plan step outcome exceeds maximum length")
  raise_if (is_given step.outcome && not (contains ("completed" ∷ "blocked" ∷ []) step.status))
      (value_error "plan step outcome is allowed only for completed or blocked steps")
  returned step

-- `PlanStep(...)`: the fields after `__post_init__`.
unfoldable pub make_step : PlanStep → Result PyError PlanStep
make_step step = check_step (stripped step)

unfoldable pub is_active : PlanSnapshot → Bool
is_active p = any (λ step. not (step.status == "completed")) p.steps

abbrev outcome_field : Option String → Fields
outcome_field none = end
outcome_field (some s) = field "outcome" (string s) end

abbrev step_to_dict : PlanStep → Fields
step_to_dict step = field "id" (string step.id) (
    field "title" (string step.title)
      (field "status" (string step.status) (outcome_field step.outcome)))

steps_to_items : List PlanStep → Items
steps_to_items [] = nil
steps_to_items (step ∷ steps) = item (object (step_to_dict step)) (steps_to_items steps)

-- `plan_snapshot_to_dict`
unfoldable pub to_dict : PlanSnapshot → Fields
unfolding steps_to_items
to_dict p = field "plan_id" (string p.plan_id) (
    field "goal" (string p.goal)
      (field "revision" (number p.revision) (field "steps" (array (steps_to_items p.steps)) end)))

-- `status` of a persisted step: `isinstance(status, str)`
abbrev status_of : Option Json → Result PyError String
status_of (some (string s)) = returned s
status_of _ = raised (value_error "plan step status must be a string")

abbrev outcome_of : Option Json → Result PyError (Option String)
outcome_of none = returned none
outcome_of (some null) = returned none
outcome_of (some (string s)) = returned (some s)
outcome_of _ = raised (value_error "plan step outcome must be a string")

-- `repr` is what Python's `str` writes for a value that is no text.
module _ (repr : Json → String) where
  step_from : Json → Result PyError PlanStep
  unfolding make_step
  step_from (object d) = do
    status ← status_of (get "status" d)
    outcome ← outcome_of (get "outcome" d)
    id ← require "id" d
    title ← require "title" d
    make_step
        (record { id = str repr id; title = str repr title; status = status; outcome = outcome })
  step_from _ = raised (value_error "plan step must be an object")

  steps_from : Items → Result PyError (List PlanStep)
  unfolding step_from
  steps_from nil = returned []
  steps_from (item j js) = do step ← step_from j; steps ← steps_from js; returned (step ∷ steps)

  abbrev steps_value : Option Json → Result PyError Items
  steps_value (some (array js)) = returned js
  steps_value _ = raised (value_error "plan steps must be an array")

  -- `plan_snapshot_from_dict`; a revision that is no number is a `TypeError` here.
  unfoldable pub from_dict : Fields → Result PyError PlanSnapshot
  unfolding steps_from
  from_dict d = do
    js ← steps_value (get "steps" d)
    steps ← steps_from js
    plan_id ← require "plan_id" d
    goal ← require "goal" d
    revision ← require "revision" d
    n ← as_number revision
    returned
        (record { plan_id = str repr plan_id; goal = str repr goal; revision = n; steps = steps })
