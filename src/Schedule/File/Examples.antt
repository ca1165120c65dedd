-- ===== src/Schedule/File/Examples.antt =====
-- agent_core/scheduler.py: an appended record at a small file.
use nosis.Base.{◌≡◌, refl, true, some, none, ◌>>=◌, ◌==◌, if◌then◌else◌}
use nosis.Base.Texts.{strip, lstrip, rstrip, is_space}
use nosis.Base.Json.{string, object, Fields, end, field}
use nosis.Schedule.Stored.{schedule_to_dict}
use nosis.Schedule.Examples.{library, daily}
use nosis.Schedule.File.{JsonText, reload, append, apply_fields, is_line_break, ends_with_newline}
use nosis.Schedule.File.Append.{IsWritten, reload-append}

abbrev creation : Fields
creation =
    field "op" (string "create") (field "schedule" (object (schedule_to_dict library daily)) end)

abbrev deletion : Fields
deletion = field "op" (string "delete") (field "schedule_id" (string "s") end)

abbrev json : JsonText
json = record {
  loads = λ s.
      if s == "delete"
      then some (object deletion)
      else if s == "create"
      then some (object creation)
      else none;
  dumps = λ j. "delete";
}

deletion-IsWritten : IsWritten json deletion
unfolding is_line_break strip lstrip rstrip is_space
deletion-IsWritten = record { one_line = refl; filled = refl; read = refl }

create_is_ended : ends_with_newline "create\n" ≡ true
unfolding ends_with_newline
create_is_ended = refl

reload-append_example :
    reload library 9 json (append json deletion "create\n")
    ≡ (reload library 9 json "create\n" >>= apply_fields library 9 deletion)
reload-append_example =
    reload-append library 9 json deletion "create\n" create_is_ended deletion-IsWritten
