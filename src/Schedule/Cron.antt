-- ===== src/Schedule/Cron.antt =====
-- agent_core/scheduler.py: `_cron_matches`. `int` reads ASCII digits; the others that Python knows as
-- digits are outside the model.
pub mod Examples
use nosis.Base.{
  ℕ, zero, suc, ◌+◌, ◌-◌, ◌*◌, ◌/◌, ◌%◌, String, Bool, true, false, Option, none, some, List, [],
  ◌∷◌, ◌==◌, ◌&&◌, ◌||◌, not, ltb, leb, nat_eq, filter, length, if◌then◌else◌, Result, returned,
  raised, ◌>>=◌, ◌>>◌, raise_if,
}
use Prim.Native.Char.{Char, code}
use text.Mathlib.Text.{starts_with}
use nosis.Base.Texts.{is_empty, is_space}
use nosis.Base.Json.{PyError, value_error}

abbrev push : Char → List String → List String
push c [] = String.◌∷◌ c "" ∷ []
push c (w ∷ ws) = String.◌∷◌ c w ∷ ws

-- The pieces between the characters that the test holds for: `str.split` with a separator.
unfoldable pub split_by : (ℕ → Bool) → String → List String
split_by sep String.[] = "" ∷ []
split_by sep (String.◌∷◌ c s) =
    let rest = split_by sep s in if sep (code c) then "" ∷ rest else push c rest

-- `str.split()`
abbrev words : String → List String
words s = filter (λ w. not (is_empty w)) (split_by is_space s)

abbrev one_more : Char → String × Option String → String × Option String
one_more c (head, tail) = (String.◌∷◌ c head, tail)

-- `token.split("-", 1)`
unfoldable pub split_dash : String → String × Option String
split_dash String.[] = ("", none)
split_dash (String.◌∷◌ c s) =
    let rest = split_dash s in if nat_eq (code c) b'-' then ("", some s) else one_more c rest

-- An integer: its sign and its magnitude.
pub record Signed : Type 0 where
  pub negative : Bool
  pub magnitude : ℕ

abbrev int_error : PyError
int_error = value_error "invalid literal for int()"

-- Digits, with single underscores between them; `after_digit` is whether one was just read.
unfoldable pub digits_from : (acc : ℕ) → (after_digit : Bool) → String → Option ℕ
digits_from acc after_digit String.[] = if after_digit then some acc else none
digits_from acc after_digit (String.◌∷◌ c s) =
    let read = digits_from (acc * 10 + (code c - b'0')) true s in
    let skipped = digits_from acc false s in
    if leb b'0' (code c) && leb (code c) b'9'
    then read
    else if nat_eq (code c) b'_' && after_digit
    then skipped
    else none

abbrev signed : Bool → Option ℕ → Result PyError Signed
signed negative none = raised int_error
signed negative (some n) = returned (record { negative = negative; magnitude = n })

-- `int(token)`, with the digits 0 to 9 alone
unfoldable pub int : String → Result PyError Signed
int String.[] = raised int_error
int (String.◌∷◌ c s) =
    if nat_eq (code c) b'-'
    then signed true (digits_from 0 false s)
    else if nat_eq (code c) b'+'
    then signed false (digits_from 0 false s)
    else signed false (digits_from 0 false (String.◌∷◌ c s))

-- `number in range(low, high + 1)`; a negative end leaves the range empty, and a negative start is
-- below every number.
unfoldable pub in_span : Signed → Signed → ℕ → Bool
in_span low high n =
    (low.negative || leb low.magnitude n)
    && (not (high.negative && ltb 0 high.magnitude) && leb n high.magnitude)

-- `number in range(low, high + 1, step)`, for `low` at most `high`
unfoldable pub in_steps : ℕ → ℕ → Signed → ℕ → Result PyError Bool
in_steps low high step n =
    if nat_eq step.magnitude 0
    then raised (value_error "range() arg 3 must not be zero")
    else returned
        (not step.negative && (leb low n && leb n high && nat_eq ((n - low) % step.magnitude) 0))

abbrev drop_two : String → String
drop_two String.[] = ""
drop_two (String.◌∷◌ c String.[]) = ""
drop_two (String.◌∷◌ c (String.◌∷◌ d s)) = s

abbrev is_number : Signed → ℕ → Bool
is_number i n = (not i.negative || nat_eq i.magnitude 0) && nat_eq i.magnitude n

-- A token with a dash is a span, any other one number.
unfoldable pub span_or_number : String × Option String → ℕ → Result PyError Bool
span_or_number (start, some end) n = do
  low ← int start
  high ← int end
  returned (in_span low high n)
span_or_number (token, none) n = do i ← int token; returned (is_number i n)

-- Whether one token allows the number.
unfoldable pub token_allows : ℕ → ℕ → String → ℕ → Result PyError Bool
token_allows low high token n =
    if token == "*"
    then returned (leb low n && leb n high)
    else if starts_with token "*/"
    then (int (drop_two token) >>= λ step. in_steps low high step n)
    else span_or_number (split_dash token) n

-- All the tokens of a field are read before it is tested.
unfoldable pub field_allows : ℕ → ℕ → List String → ℕ → Result PyError Bool
field_allows low high [] n = returned false
field_allows low high (token ∷ tokens) n = do
  here ← token_allows low high token n
  there ← field_allows low high tokens n
  returned (here || there)

-- What `_cron_matches` reads of a time; Monday is weekday 0.
pub record LocalTime : Type 0 where
  pub minute : ℕ
  pub hour : ℕ
  pub day : ℕ
  pub month : ℕ
  pub weekday : ℕ

-- `zip(fields, actual, limits)`: for each field its number and its limits
abbrev and_then : Result PyError Bool → Result PyError Bool → Result PyError Bool
and_then (raised e) next = raised e
and_then (returned false) next = returned false
and_then (returned true) next = next

abbrev is_comma : ℕ → Bool
is_comma c = nat_eq c b','

-- A field that does not match ends the loop before the next one is read.
unfoldable pub fields_match : List String → List (ℕ × ℕ × ℕ) → Result PyError Bool
fields_match [] rest = returned true
fields_match (f ∷ fs) [] = returned true
fields_match (f ∷ fs) ((number, low, high) ∷ rest) =
    and_then (field_allows low high (split_by is_comma f) number) (fields_match fs rest)

abbrev actual : LocalTime → List (ℕ × ℕ × ℕ)
actual t =
    (t.minute, 0, 59)
    ∷ (t.hour, 0, 23)
    ∷ (t.day, 1, 31)
    ∷ (t.month, 1, 12)
    ∷ ((t.weekday + 1) % 7, 0, 6)
    ∷ []

unfoldable pub cron_matches : String → LocalTime → Result PyError Bool
cron_matches expression t = do
  raise_if (not (nat_eq (length (words expression)) 5))
      (value_error "cron expression must have five fields")
  fields_match (words expression) (actual t)
