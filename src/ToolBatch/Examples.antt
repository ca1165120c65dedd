-- ===== src/ToolBatch/Examples.antt =====
-- agent_core/tool_batch.py: a batch of two calls, of which the second is cancelled.
use nosis.Base.{◌+◌, ◌≤◌, refl, [], ◌∷◌, none, some, List, returned, raised, Result, Option, String}
use nosis.Session.State.{new_session}
use nosis.Session.Examples.{python, at, read_call}
use nosis.ToolBatch.{Failure, cancelled, Run, execute_sequentially}
use nosis.ToolBatch.Counts.{starts, ends}
use nosis.ToolBatch.Paired.{execute_sequentially-paired}

abbrev run : (id : String) → Result Failure (Option String) → Run
run id executed = record {
  call = record read_call { id = id };
  announced = returned tt;
  executed = executed;
  normalized = returned "text";
  shown = returned tt;
  now = 3;
  at_start = at 1;
  at_finish = at 2;
  at_failure = at 3;
  at_item = at 4;
}

abbrev runs : List Run
runs = run "first" (returned none) ∷ run "second" (raised (cancelled "stopped")) ∷ []

execute_sequentially-paired_example :
    starts "second"
        (execute_sequentially python (λ e. "") "turn" runs (new_session (some []))).1.journal
      + 0
    ≤ 0
      + ends "second"
          (execute_sequentially python (λ e. "") "turn" runs (new_session (some []))).1.journal
execute_sequentially-paired_example =
    execute_sequentially-paired python (λ e. "") "turn" "second" runs (new_session (some []))
      ((refl, refl, refl, refl), ((refl, refl, refl, refl), tt))
