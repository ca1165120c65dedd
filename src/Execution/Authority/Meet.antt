-- ===== src/Execution/Authority/Meet.antt =====
-- agent_core/execution/authority.py: `intersect` is the greatest authority below both.
mod Examples
use nosis.Base.{◌≡◌, Bool, true, false, ◌&&◌, arith, Result, returned, raised, Option, none, some}
use nosis.Execution.Authority.{
  ExecutionScope, workspace, host, ExecutionAuthority, allows, allows_unattended, make, meet,
  intersect,
}

-- An authority that `make` let pass.
abbrev pub IsValid : ExecutionAuthority → Type 0
IsValid a = make a ≡ returned a

module _ (a b : ExecutionAuthority) (valid_a : IsValid a) (valid_b : IsValid b) where
  meet-IsValid : IsValid (meet a b)
  unfolding make meet
  meet-IsValid = ground arith

  allows-meet : (s : ExecutionScope) → allows (meet a b) s ≡ (allows a s && allows b s)
  unfolding allows meet
  allows-meet s = ground arith

  allows_unattended-meet :
      (s : ExecutionScope)
      → allows_unattended (meet a b) s ≡ (allows_unattended a s && allows_unattended b s)
  unfolding make allows_unattended meet
  allows_unattended-meet s = ground arith

  -- Two valid authorities have an intersection, which is valid: the constructor does not raise. It
  -- allows a scope exactly where both do, and lets it pass unattended exactly where both do.
  pub intersect_exact :
      (c : ExecutionAuthority) × (intersect a b ≡ returned c)
      × IsValid c
      × ((s : ExecutionScope) → allows c s ≡ (allows a s && allows b s))
      × ((s : ExecutionScope)
          → allows_unattended c s ≡ (allows_unattended a s && allows_unattended b s))
  unfolding intersect
  intersect_exact = (meet a b, meet-IsValid, meet-IsValid, allows-meet, allows_unattended-meet)
