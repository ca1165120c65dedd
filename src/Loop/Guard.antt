-- ===== src/Loop/Guard.antt =====
-- agent_core/loop_policy.py: `ToolCallRepetitionGuard`. The arguments of a call are an abstract
-- type, and `dumps` is the canonical text that `json.dumps` (sorted keys) makes of them.
pub mod Repetition
mod Examples
use nosis.Base.{
  ℕ, ◌+◌, String, Bool, true, false, List, [], ◌∷◌, Option, none, some, ◌&&◌, ltb, ◌==◌,
  if◌then◌else◌, Result, returned, raised, map,
}

pub record ToolCall (A : Type 0) : Type 0 where
  pub id : String
  pub name : String
  pub arguments : A

-- `ToolCallLimitExceededError`
pub record LimitExceeded : Type 0 where
  pub tool_name : String
  pub limit : ℕ

pub record Key : Type 0 where
  pub name : String
  pub arguments : String

abbrev pub key_eq : Key → Key → Bool
key_eq a b = a.name == b.name && a.arguments == b.arguments

-- `key == previous`, where `previous` may be `None`
abbrev pub is_previous : Key → Option Key → Bool
is_previous key none = false
is_previous key (some previous) = key_eq key previous

pub record Guard : Type 0 where
  pub limit : ℕ
  pub previous : Option Key
  pub count : ℕ

unfoldable pub reset : Guard → Guard
reset g = record g { previous = none; count = 0 }

unfoldable pub new : ℕ → Guard
new limit = record { limit = limit; previous = none; count = 0 }

module _ {A : Type 0} (dumps : A → String) where
  abbrev pub key_of : ToolCall A → Key
  key_of call = record { name = call.name; arguments = dumps call.arguments }

  abbrev pub keys : List (ToolCall A) → List Key
  keys calls = map key_of calls

  -- The loop of `check`, over the local `previous` and `count`.
  unfoldable pub check_from :
      ℕ → Option Key → ℕ → List (ToolCall A) → Result LimitExceeded (Option Key × ℕ)
  check_from limit previous count [] = returned (previous, count)
  check_from limit previous count (call ∷ calls) =
      let count' = if is_previous (key_of call) previous then count + 1 else 1 in
      let rest = check_from limit (some (key_of call)) count' calls in
      if ltb limit count' then raised (record { tool_name = call.name; limit = limit }) else rest

  commit : Guard → Result LimitExceeded (Option Key × ℕ) → Result LimitExceeded (Unit {0}) × Guard
  commit g (returned (previous, count)) =
      (returned tt, record g { previous = previous; count = count })
  commit g (raised e) = (raised e, g)

  -- The guard is written after the loop only.
  unfoldable pub check : Guard → List (ToolCall A) → Result LimitExceeded (Unit {0}) × Guard
  unfolding check_from commit
  check g calls = commit g (check_from g.limit g.previous g.count calls)
