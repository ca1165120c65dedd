-- ===== src/Permissions/Examples.antt =====
-- agent_core/permissions.py: a command outside the workspace.
use nosis.Base.{
  ◌≡◌, refl, ◌++◌, true, false, Bool, Option, some, [], ◌∷◌, Result, returned, raised, IsOk,
}
use nosis.Execution.Authority.{host, workspace_access_authority, allows_unattended}
use nosis.Session.Message.{ToolCall}
use nosis.Session.State.{new_session}
use nosis.Permissions.{Route, Refusal, denied, needs_approval, authorize, consult}
use nosis.Permissions.Denial.{denial, in_turn, authorize-asks, authorize-denied}
use nosis.Session.Examples.{python, at, read_call}

abbrev outside : Option Route
outside = some (record { authority = workspace_access_authority; scope = some host })

outside-needs_approval : needs_approval outside ≡ true
unfolding needs_approval allows_unattended
outside-needs_approval = refl

abbrev deny : ToolCall → Result Refusal Bool
deny call = raised denied

-- The policy lets the call pass without asking.
abbrev pass : ToolCall → Result Refusal Bool
pass call = returned false

pass-IsOk :
    IsOk (authorize python (at 1) (λ c. c.name) pass outside read_call (new_session (some []))).0
unfolding authorize consult needs_approval allows_unattended
pass-IsOk = tt

authorize-asks_example : IsOk (pass read_call)
authorize-asks_example =
    authorize-asks python (at 1) (λ c. c.name) pass outside read_call (new_session (some []))
      outside-needs_approval pass-IsOk

authorize-denied_example :
    let s = new_session (some []) in
    let r = authorize python (at 1) (λ c. c.name) deny outside read_call (in_turn "turn" s) in
    (r.0 ≡ raised denied)
    × (r.1.journal ≡ s.journal ++ denial python (at 1) (λ c. c.name) read_call "turn" s ∷ [])
authorize-denied_example =
    authorize-denied python (at 1) (λ c. c.name) deny outside read_call "turn"
      (new_session (some [])) refl outside-needs_approval refl
