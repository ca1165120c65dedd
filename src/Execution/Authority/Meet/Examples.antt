-- ===== src/Execution/Authority/Meet/Examples.antt =====
-- `intersect` of agent_core/execution/authority.py on two of its constants.
use nosis.Base.{◌≡◌, refl, ◌&&◌, returned}
use nosis.Execution.Authority.{
  ExecutionScope, ExecutionAuthority, allows, allows_unattended, make, intersect,
  workspace_access_authority, workspace_only_authority, full_access_authority,
}
use nosis.Execution.Authority.Meet.{IsValid, intersect_exact}

constants-IsValid : IsValid full_access_authority × IsValid workspace_access_authority
unfolding make
constants-IsValid = (refl, refl)

intersect_workspace_only :
    intersect full_access_authority workspace_only_authority ≡ returned workspace_only_authority
unfolding intersect make
intersect_workspace_only = refl

intersect_exact_example :
    (c : ExecutionAuthority) × (intersect full_access_authority workspace_access_authority
      ≡ returned c)
    × IsValid c
    × ((s : ExecutionScope)
        → allows c s ≡ (allows full_access_authority s && allows workspace_access_authority s))
    × ((s : ExecutionScope)
        → allows_unattended c s ≡ (
            allows_unattended full_access_authority s
            && allows_unattended workspace_access_authority s))
intersect_exact_example =
    intersect_exact full_access_authority workspace_access_authority constants-IsValid.0
      constants-IsValid.1
