-- ===== src/Schedule/Cron/Examples.antt =====
-- agent_core/scheduler.py: cron expressions on small inputs.
use nosis.Base.{◌≡◌, refl, true, false, returned, raised, ℕ}
use nosis.Base.Texts.{is_space}
use nosis.Base.Json.{value_error}
use nosis.Schedule.Cron.{
  LocalTime, cron_matches, fields_match, field_allows, token_allows, span_or_number, split_dash,
  split_by, digits_from, int, in_span, in_steps,
}

-- A Monday.
abbrev monday : (hour minute : ℕ) → LocalTime
monday hour minute = record { minute = minute; hour = hour; day = 3; month = 2; weekday = 0 }

working_hours : cron_matches "*/15  9-17 * * 1,3,5" (monday 9 45) ≡ returned true
unfolding cron_matches fields_match field_allows token_allows span_or_number split_dash split_by
    digits_from int in_span in_steps is_space
working_hours = refl

not_yet : cron_matches "*/15 9-17 * * 1-5" (monday 8 45) ≡ returned false
unfolding cron_matches fields_match field_allows token_allows span_or_number split_dash split_by
    digits_from int in_span in_steps is_space
not_yet = refl

four_fields :
    cron_matches "* * * *" (monday 8 45)
    ≡ raised (value_error "cron expression must have five fields")
unfolding cron_matches fields_match field_allows token_allows span_or_number split_dash split_by
    digits_from int in_span in_steps is_space
four_fields = refl

-- The second field is not read if the first does not match.
unread : cron_matches "1 x * * *" (monday 8 45) ≡ returned false
unfolding cron_matches fields_match field_allows token_allows span_or_number split_dash split_by
    digits_from int in_span in_steps is_space
unread = refl
