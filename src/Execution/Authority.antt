-- ===== src/Execution/Authority.antt =====
-- agent_core/execution/authority.py, and `PermissionPreset` of agent_core/permissions.py.
pub mod Meet
use nosis.Base.{
  ℕ, Bool, true, false, Option, none, some, List, [], ◌∷◌, not, ◌&&◌, leb, ltb, if◌then◌else◌,
  Result, returned, raised, ◌>>=◌, ◌>>◌, raise_if, filter,
}

pub data ExecutionScope : Type 0 where
  workspace host : ExecutionScope

abbrev pub rank : ExecutionScope → ℕ
rank workspace = 0
rank host = 1

pub record ExecutionAuthority : Type 0 where
  pub default_scope : ExecutionScope
  pub maximum_scope : ExecutionScope
  pub unattended_scope : Option ExecutionScope

pub data AuthorityError : Type 0 where
  default_exceeds unattended_exceeds : AuthorityError

unfoldable pub allows : ExecutionAuthority → ExecutionScope → Bool
allows a scope = leb (rank scope) (rank a.maximum_scope)

unfoldable pub allows_unattended : ExecutionAuthority → ExecutionScope → Bool
allows_unattended a scope = elim a.unattended_scope [
  | none ↦ false
  | some u ↦ leb (rank scope) (rank u)
]

unattended_is_allowed : ExecutionAuthority → Bool
unfolding allows
unattended_is_allowed a = elim a.unattended_scope [ none ↦ true | some u ↦ allows a u ]

-- `ExecutionAuthority(...)`: the fields, after the tests of `__post_init__`.
unfoldable pub make : ExecutionAuthority → Result AuthorityError ExecutionAuthority
unfolding allows unattended_is_allowed
make a = do
  raise_if (not (allows a a.default_scope)) default_exceeds
  raise_if (not (unattended_is_allowed a)) unattended_exceeds
  returned a

unfoldable pub scopes : ExecutionAuthority → List ExecutionScope
unfolding allows
scopes a = filter (allows a) (workspace ∷ host ∷ [])

-- Python's `min` by rank: the first of the least.
abbrev pub min_scope : ExecutionScope → ExecutionScope → ExecutionScope
min_scope a b = if ltb (rank b) (rank a) then b else a

meet_unattended :
    Option ExecutionScope → Option ExecutionScope → ExecutionScope → Option ExecutionScope
meet_unattended (some a) (some b) maximum = some (min_scope (min_scope a b) maximum)
meet_unattended _ _ maximum = none

-- The arguments that `intersect` gives to the constructor.
unfoldable pub meet : ExecutionAuthority → ExecutionAuthority → ExecutionAuthority
unfolding meet_unattended
meet a b =
    let maximum = min_scope a.maximum_scope b.maximum_scope in
    record {
      default_scope = min_scope (min_scope a.default_scope b.default_scope) maximum;
      maximum_scope = maximum;
      unattended_scope = meet_unattended a.unattended_scope b.unattended_scope maximum;
    }

unfoldable pub intersect :
    ExecutionAuthority → ExecutionAuthority → Result AuthorityError ExecutionAuthority
unfolding meet
intersect a b = make (meet a b)

abbrev pub approval_required_authority : ExecutionAuthority
approval_required_authority = record {
  default_scope = workspace;
  maximum_scope = host;
  unattended_scope = none;
}

abbrev pub workspace_access_authority : ExecutionAuthority
workspace_access_authority = record {
  default_scope = workspace;
  maximum_scope = host;
  unattended_scope = some workspace;
}

abbrev pub workspace_only_authority : ExecutionAuthority
workspace_only_authority = record {
  default_scope = workspace;
  maximum_scope = workspace;
  unattended_scope = some workspace;
}

abbrev pub full_access_authority : ExecutionAuthority
full_access_authority = record {
  default_scope = host;
  maximum_scope = host;
  unattended_scope = some host;
}
