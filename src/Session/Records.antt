-- ===== src/Session/Records.antt =====
-- agent_core/session.py: the operations of a session for jobs, the archive, the preset, the plan and hooks.
use nosis.Base.{ℕ, String, Option, none, some, ◌==◌, ltb, length, if◌then◌else◌}
use Prim.Native.String.{◌++◌ as str_append}
use nosis.Base.Json.{Json, null, number, string, object, Fields, end, field, Python}
use nosis.Plan.{PlanSnapshot, to_dict}
use nosis.Session.Message.{field_if, text_json}
use nosis.Session.State.{PermissionPreset, preset_value, Session}
use nosis.Session.Journal.{Moment, Outcome, emit}
use nosis.Session.Operations.{skip}

-- The arguments of `job_finished`.
pub record JobResult : Type 0 where
  pub status : String
  pub elapsed_seconds : ℕ
  pub result_summary : Option Fields
  pub progress : Option Fields
  pub error : Option String

abbrev dict_or_null : Option Fields → Json
dict_or_null none = null
dict_or_null (some d) = object d

-- `max(0, min(item_cursor, len(self.items)))`, for a cursor that is not negative
abbrev clamped : ℕ → ℕ → ℕ
clamped cursor bound = if ltb bound cursor then bound else cursor

module _ (python : Python) (moment : Moment) where
  unfoldable pub job_submitted : String → String → String → Fields → Session → Outcome
  job_submitted job_id kind turn_id details s =
      emit python moment "job_submitted" (some turn_id)
        (field "job_id" (string job_id) (
          field "kind" (string kind)
            (field "status" (string "submitted") (field "details" (object details) end))))
        none s

  unfoldable pub job_started : String → String → String → Session → Outcome
  job_started job_id kind turn_id s =
      emit python moment "job_started" (some turn_id)
        (field "job_id" (string job_id)
          (field "kind" (string kind) (field "status" (string "running") end)))
        none s

  unfoldable pub job_finished : String → String → String → JobResult → Session → Outcome
  job_finished job_id kind turn_id r s =
      emit python moment (str_append "job_" r.status) (some turn_id)
        (field "job_id" (string job_id) (
          field "kind" (string kind) (
            field "status" (string r.status) (
              field "elapsed_seconds" (number r.elapsed_seconds) (
                field "result_summary" (dict_or_null r.result_summary) (
                  field "progress" (dict_or_null r.progress)
                    (field_if "error" (text_json r.error) end)))))))
        none s

  unfoldable pub set_archived_summary : String → ℕ → Session → Outcome
  set_archived_summary summary item_cursor s =
      emit python moment "context_archived" s.current_turn_id
        (field "summary" (string summary)
          (field "item_cursor" (number (clamped item_cursor (length s.items))) end))
        none s

  -- `preset is self.permission_preset`, for members of one enumeration
  unfoldable pub set_permission_preset : PermissionPreset → Session → Outcome
  set_permission_preset preset s =
      let changed =
        emit python moment "permission_preset_changed" s.current_turn_id
          (field "preset" (string (preset_value preset)) end) none s in
      if preset_value preset == preset_value s.permission_preset then skip s else changed

  unfoldable pub set_plan : PlanSnapshot → Session → Outcome
  set_plan snapshot s =
      emit python moment "plan_updated" none (field "plan" (object (to_dict snapshot)) end) none s

  unfoldable pub record_hook : String → Fields → Option String → Session → Outcome
  record_hook status payload tool_call_id s =
      emit python moment (str_append "hook_" status) s.current_turn_id payload tool_call_id s
