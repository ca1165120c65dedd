-- ===== src/Base/Json.antt =====
-- JSON values, and Python's dicts with text keys as they come out of `json.loads`. Numbers are
-- natural; no part that is modelled computes with a negative number or a float of a payload.
use nosis.Base.Tests.{if◌then◌else◌}
use nosis.Base.Results.{Result, raised, returned}
use Prim.Native.Nat.{ℕ, suc}
use Prim.Native.String.{String}
use mathlib.Core.Bool.{Bool, false}
use mathlib.Core.Option.{Option, none, some}
use text.Mathlib.Text.{◌==◌}

mutual
  pub data Json : Type 0 where
    null : Json
    boolean : Bool → Json
    number : ℕ → Json
    string : String → Json
    array : Items → Json
    object : Fields → Json

  pub data Items : Type 0 where
    nil : Items
    item : Json → Items → Items

  pub data Fields : Type 0 where
    end : Fields
    field : String → Json → Fields → Fields

-- `d.get(key)`
abbrev pub get : String → Fields → Option Json
get key end = none
get key (field k v rest) = if k == key then some v else get key rest

-- The fields of one literal before those of another: `{..., **other}` for keys that differ.
abbrev pub also : Fields → Fields → Fields
also end other = other
also (field k v rest) other = field k v (also rest other)

abbrev pub field_count : Fields → ℕ
field_count end = 0
field_count (field k v rest) = suc (field_count rest)

-- Exceptions of the modelled code: `ValueError` with the text that it starts with, a missing key, a
-- value of a wrong type.
pub data PyError : Type 0 where
  value_error runtime_error : String → PyError
  key_error : String → PyError
  type_error os_error index_error stop_iteration : PyError

-- `d[key]`
abbrev pub require : String → Fields → Result PyError Json
require key d = elim (get key d) [ none ↦ raised (key_error key) | some v ↦ returned v ]

-- `d.get(key, default)` where the default is a text
abbrev pub get_or : Json → String → Fields → Json
get_or default key d = elim (get key d) [ none ↦ default | some v ↦ v ]

-- `v if isinstance(v, str) else None`
abbrev pub text? : Option Json → Option String
text? (some (string s)) = some s
text? _ = none

-- `isinstance(v, dict)`
abbrev pub object? : Option Json → Option Fields
object? (some (object d)) = some d
object? _ = none

-- A text that the code takes unchecked.
abbrev pub as_text : Json → Result PyError String
as_text (string s) = returned s
as_text _ = raised type_error

abbrev pub as_number : Json → Result PyError ℕ
as_number (number n) = returned n
as_number _ = raised type_error

-- `v is None` or a text, taken unchecked
abbrev pub as_optional_text : Option Json → Result PyError (Option String)
as_optional_text none = returned none
as_optional_text (some null) = returned none
as_optional_text (some (string s)) = returned (some s)
as_optional_text _ = raised type_error

abbrev pub optional_text : Option String → Json
optional_text none = null
optional_text (some s) = string s

-- `str(v)`; `repr` is what Python writes for a value that is no text.
abbrev pub str : (Json → String) → Json → String
str repr (string s) = s
str repr j = repr j

-- Python's library, of which the code is not modelled: `datetime.isoformat` and `fromisoformat` as
-- time_utils.py uses them, for times in microseconds, and `str` of a value that is no text.
pub record Python : Type 0 where
  pub format_utc : ℕ → String
  pub parse_utc : String → Result PyError ℕ
  pub repr : Json → String

-- `v == s` for a text `s`
abbrev pub is_text : Json → String → Bool
is_text (string t) s = t == s
is_text _ s = false
