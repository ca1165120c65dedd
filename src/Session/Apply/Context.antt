-- ===== src/Session/Apply/Context.antt =====
-- agent_core/session.py: the branches of `apply_event` for the archive, the permission preset and the plan.
use nosis.Base.{
  ◌+◌, String, Option, none, some, ◌==◌, if◌then◌else◌, Result, returned, raised, ◌>>=◌,
}
use nosis.Base.Json.{Fields, get, PyError, value_error, require, text?, as_number, str, Python}
use nosis.Plan.{from_dict}
use nosis.Session.State.{
  PermissionPreset, ask_for_approval, workspace_access, full_access, JournalEvent, Replayed,
}
use nosis.Session.Apply.Run.{Applied, done, reading}

unfoldable pub apply_archived : JournalEvent → Replayed → Applied
apply_archived e s =
    let s' = record s {
      input_token_anchor = none;
      archived_summary = text? (get "summary" e.payload);
    } in
    reading (require "item_cursor" e.payload >>= as_number) s' λ cursor.
      done
        (record s' { archived_item_cursor = cursor; compression_count = s.compression_count + 1 })

-- `PermissionPreset(value)`
abbrev preset_of : String → Result PyError PermissionPreset
preset_of v =
    if v == "ask_for_approval"
    then returned ask_for_approval
    else if v == "workspace_access"
    then returned workspace_access
    else if v == "full_access"
    then returned full_access
    else raised (value_error "is not a valid PermissionPreset")

unfoldable pub apply_preset : Python → JournalEvent → Replayed → Applied
apply_preset python e s =
    reading (require "preset" e.payload >>= λ v. preset_of (str python.repr v)) s
      λ preset. done (record s { permission_preset = preset })

unfoldable pub apply_plan : Python → Option Fields → Replayed → Applied
apply_plan python none s = done s
apply_plan python (some d) s =
    reading (from_dict python.repr d) s λ plan. done (record s { plan = some plan })
