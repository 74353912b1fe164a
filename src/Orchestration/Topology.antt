-- ===== src/Orchestration/Topology.antt =====
-- orchestration/topology.py: which enabled groups use which physical resource.
pub mod Usage
use nipxi.Prelude.{
  ℕ, ◌≡◌, ◌↔◌, Bool, true, false, not, ◌&&◌, Option, none, some, List, [], ◌∷◌, arith, Dict, adjust,
  ◌==◌, if◌then◌else◌, nat_eq, Eq, add,
}
use nipxi.Orchestration.Workers.{Name, Group, Groups}

-- RESOURCE_ROLES, and the role that orchestration/resource_ownership.py adds.
pub data Role : Type 0 where
  relay_matrix_name smu_name dmm_name daq_name ntc_daq_name sense_relay_matrix_name : Role

abbrev pub rank : Role → ℕ
rank relay_matrix_name = 0
rank smu_name = 1
rank dmm_name = 2
rank daq_name = 3
rank ntc_daq_name = 4
rank sense_relay_matrix_name = 5

pub record ResourceKey : Type 0 where
  pub role : Role
  pub resource_name : Name

abbrev pub same_role : Role → Role → Bool
same_role r s = rank r == rank s

abbrev pub same_key : ResourceKey → ResourceKey → Bool
same_key a b = same_role a.role b.role && a.resource_name == b.resource_name

pub same_role_iff : (r s : Role) → (same_role r s ≡ true) ↔ (r ≡ s)
same_role_iff r s = ground arith

pub same_key_iff : (a b : ResourceKey) → (same_key a b ≡ true) ↔ (a ≡ b)
same_key_iff a b = ground (arith, same_role_iff a.role b.role)

instance abbrev pub key_eq : Eq ResourceKey
key_eq = record { beq = same_key; beq_iff = same_key_iff }

-- `{ResourceKey: {group names}}`
abbrev pub Usage : Type 0
Usage = Dict ResourceKey (List Name)

-- `a or b` on two names that may be None.
abbrev pub or_name : Option Name → Option Name → Option Name
or_name none b = b
or_name (some a) b = if a == 0 then b else some a

-- The dict `roles` of one group.
abbrev pub roles : Group → List (Role × Option Name)
roles grp =
    (relay_matrix_name, grp.relay_matrix)
    ∷ (smu_name, grp.smu)
    ∷ (dmm_name, grp.dmm)
    ∷ (daq_name, grp.daq)
    ∷ (ntc_daq_name, or_name grp.ntc_daq grp.daq)
    ∷ []

-- `usage.setdefault(key, set()).add(group_name)`
unfoldable pub add_use : Name → Role → Option Name → Usage → Usage
add_use group_name role none usage = usage
add_use group_name role (some resource) usage =
    adjust (record { role = role; resource_name = resource }) [] (add group_name) usage

unfoldable pub add_uses : Name → List (Role × Option Name) → Usage → Usage
add_uses group_name [] usage = usage
add_uses group_name ((role, resource) ∷ rest) usage =
    add_uses group_name rest (add_use group_name role resource usage)

unfoldable pub topology_from : Groups → Usage → Usage
topology_from [] usage = usage
topology_from ((group_name, grp) ∷ rest) usage =
    topology_from rest (if not grp.enabled then usage else add_uses group_name (roles grp) usage)

unfoldable pub discover_topology : Groups → Usage
unfolding topology_from
discover_topology groups = topology_from groups []
