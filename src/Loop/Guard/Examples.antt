-- ===== src/Loop/Guard/Examples.antt =====
-- Runs of `ToolCallRepetitionGuard` (agent_core/loop_policy.py) on small batches.
use nosis.Base.{String, ◌≡◌, ◌↔◌, refl, suc, List, [], ◌∷◌, raised, IsOk}
use mathlib.Core.List.{flatten}
use nosis.Loop.Guard.{ToolCall, new, keys, check}
use nosis.Loop.Guard.Repetition.{Repeats, check_batches, check_batches_iff}

abbrev call : String → String → ToolCall String
call name arguments = record { id = "id"; name = name; arguments = arguments }

abbrev dumps : String → String
dumps s = s

abbrev batches : List (List (ToolCall String))
batches =
    (call "read" "a" ∷ call "read" "a" ∷ [])
    ∷ (call "read" "b" ∷ call "read" "a" ∷ [])
    ∷ (call "read" "a" ∷ call "read" "a" ∷ [])
    ∷ []

passes_three : IsOk (check_batches dumps (new 3) batches).0
unfolding check_batches new check
passes_three = tt

refuses_two :
    (check_batches dumps (new 2) batches).0 ≡ raised (record { tool_name = "read"; limit = 2 })
unfolding check_batches new check
refuses_two = refl

check_batches_iff_example :
    IsOk (check_batches dumps (new 3) batches).0
    ↔ (¬ Repeats (suc 3) (keys dumps (flatten batches)))
check_batches_iff_example = check_batches_iff dumps 3 batches
