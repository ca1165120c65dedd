-- ===== src/Permissions.antt =====
-- agent_core/permissions.py: `PermissionController`. The approval policy asks the user; what it answers
-- for a call is a parameter, and so is the description of a call that it shows.
pub mod Denial
mod Examples
use nosis.Base.{
  String, Bool, true, false, Option, none, some, ◌==◌, not, if◌then◌else◌, Result, returned, raised,
}
use Prim.Native.String.{◌++◌ as str_append}
use nosis.Base.Json.{PyError, Python}
use nosis.Execution.Authority.{ExecutionAuthority, ExecutionScope, allows_unattended}
use nosis.Session.Message.{ToolCall}
use nosis.Session.State.{PermissionPreset, preset_value, Session}
use nosis.Session.Journal.{Moment, Outcome}
use nosis.Session.Operations.{record_user_interaction}
use nosis.Session.Records.{set_permission_preset}

-- `context.execution`
pub record Route : Type 0 where
  pub authority : ExecutionAuthority
  pub scope : Option ExecutionScope

-- A `PermissionError`, or another exception.
pub data Refusal : Type 0 where
  denied : Refusal
  failed : PyError → Refusal

-- The three returns before the policy is asked.
unfoldable pub needs_approval : Option Route → Bool
needs_approval none = false
needs_approval (some route) = elim route.scope [
  | none ↦ false
  | some scope ↦ not (allows_unattended route.authority scope)
]

abbrev Authorized : Type 0
Authorized = Result Refusal (Unit {0}) × Session

abbrev answer : Bool → String
answer true = "approved"
answer false = "denied"

abbrev approval_text : String → Bool → String
approval_text description approved =
    str_append "Tool approval: "
      (str_append description (str_append "\nUser response: " (answer approved)))

-- The `raise` at the end of `except`, unless the record raises before it.
unfoldable pub refused : Outcome → Authorized
refused (raised e, s) = (raised (failed e), s)
refused (returned _, s) = (raised denied, s)

unfoldable pub accepted : Outcome → Authorized
accepted (raised e, s) = (raised (failed e), s)
accepted (returned _, s) = (returned tt, s)

module _ (python : Python) (moment : Moment) (description : ToolCall → String) where
  unfoldable pub record_approval : ToolCall → Bool → Session → Outcome
  record_approval call approved s =
      record_user_interaction python moment (approval_text (description call) approved)
        "approval_response" s

  -- `consulted` is whether the policy had to ask.
  unfoldable pub consult : Result Refusal Bool → ToolCall → Session → Authorized
  consult (raised denied) call s = refused (record_approval call false s)
  consult (raised (failed e)) call s = (raised (failed e), s)
  consult (returned false) call s = (returned tt, s)
  consult (returned true) call s = accepted (record_approval call true s)

  unfoldable pub authorize :
      (ToolCall → Result Refusal Bool) → Option Route → ToolCall → Session → Authorized
  authorize policy route call s =
      if needs_approval route then consult (policy call) call s else (returned tt, s)

abbrev persisted :
    Option (PermissionPreset → Result PyError (Unit {0})) → PermissionPreset → Outcome → Outcome
persisted persist preset (raised e, s) = (raised e, s)
persisted none preset (returned _, s) = (returned tt, s)
persisted (some persist) preset (returned _, s) = (persist preset, s)

unfoldable pub set_preset :
    Python
    → Moment
    → Option (PermissionPreset → Result PyError (Unit {0}))
    → PermissionPreset
    → Session
    → Outcome
set_preset python moment persist preset s =
    let changed = persisted persist preset (set_permission_preset python moment preset s) in
    if preset_value preset == preset_value s.permission_preset then (returned tt, s) else changed
