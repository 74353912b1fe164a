-- ===== src/Orchestration/Arbiter.antt =====
-- orchestration/arbiter.py: `InProcessArbiter`, exclusive claims on shared resources.
pub mod Exclusion
use nipxi.Prelude.{
  ℕ, Bool, true, false, not, ◌&&◌, Option, none, some, List, [], ◌∷◌, ◌==◌, if◌then◌else◌, Dict,
  lookup, insert, erase, nat_eq,
}
use nipxi.Prelude.Exec.{Result, ok, err, Action}
use nipxi.Orchestration.Workers.{Name}

-- ResourceBusyError: the resource, its owner, and who asked for it.
pub data ResourceBusyError : Type 0 where
  busy : Name → Name → Name → ResourceBusyError

pub record ClaimHandle : Type 0 where
  pub resource_name : Name
  pub owner : Name

-- `_claims`: resource_name -> owner
abbrev pub Claims : Type 0
Claims = Dict Name Name

unfoldable pub claim : Name → Name → Action ResourceBusyError Claims ClaimHandle
claim resource_name owner claims =
    let granted : Result ResourceBusyError ClaimHandle × Claims = (
      ok (record { resource_name = resource_name; owner = owner }),
      insert resource_name owner claims,
    ) in
    elim (lookup resource_name claims) [
      | none ↦ granted
      | some current_owner ↦
          if current_owner == owner
          then granted
          else (err (busy resource_name current_owner owner), claims)
    ]

unfoldable pub release : ClaimHandle → Claims → Claims
release handle claims = elim (lookup handle.resource_name claims) [
  | none ↦ claims
  | some current_owner ↦
      if current_owner == handle.owner then erase handle.resource_name claims else claims
]

unfoldable pub is_claimed : Name → Claims → Bool
is_claimed resource_name claims = elim (lookup resource_name claims) [
  | none ↦ false
  | some _ ↦ true
]
