-- ===== src/Orchestration/Topology/Usage.antt =====
-- What `discover_topology` records, against the configuration itself.
use nipxi.Prelude.{
  ◌≡◌, Bool, ◌&&◌, ◌||◌, Option, none, some, List, [], ◌∷◌, arith, lookup, or_default, ◌==◌, nat_eq,
  add, elem, elem-add, any, lookup-adjust,
}
use nipxi.Orchestration.Workers.{Name, Group, Groups}
use nipxi.Orchestration.Workers.Partition.{is_on}
use nipxi.Orchestration.Topology.{
  Role, relay_matrix_name, smu_name, dmm_name, daq_name, ntc_daq_name, sense_relay_matrix_name,
  ResourceKey, same_role, same_key_iff, key_eq, Usage, or_name, roles, add_use, add_uses,
  topology_from, discover_topology,
}

-- The device that a group has in a role; `hardware_for_group` gives `ntc_daq` that of `daq`.
abbrev pub device : Role → Group → Option Name
device relay_matrix_name grp = grp.relay_matrix
device smu_name grp = grp.smu
device dmm_name grp = grp.dmm
device daq_name grp = grp.daq
device ntc_daq_name grp = or_name grp.ntc_daq grp.daq
device sense_relay_matrix_name grp = none

abbrev pub users : ResourceKey → Usage → List Name
users key usage = or_default [] (lookup key usage)

elem-users-add_use :
    (g name : Name) (key : ResourceKey) (role : Role) (o : Option Name) (u : Usage)
    → elem g (users key (add_use name role o u)) ≡ (
        elem g (users key u)
        || ((name == g) && (same_role role key.role && is_on key.resource_name o)))
unfolding add_use
elem-users-add_use g name key role none u = ground arith
elem-users-add_use g name key role (some r) u = ground (
  arith,
  lookup-adjust (record { role = role; resource_name = r }) key [] (add name) u,
  same_key_iff (record { role = role; resource_name = r }) key,
  elem-add g name (users key u),
)

elem-users-add_uses :
    (g name : Name) (key : ResourceKey) (rs : List (Role × Option Name)) (u : Usage)
    → elem g (users key (add_uses name rs u)) ≡ (
        elem g (users key u)
        || ((name == g) && any (λ r. same_role r.0 key.role && is_on key.resource_name r.1) rs))
unfolding add_uses
elem-users-add_uses g name key [] u = ground arith
elem-users-add_uses g name key ((role, o) ∷ rs) u = ground (
  arith,
  elem-users-add_uses g name key rs (add_use name role o u),
  elem-users-add_use g name key role o u,
)

-- The dict of roles gives each role its device, and no other.
any-roles :
    (key : ResourceKey) (grp : Group)
    → any (λ r. same_role r.0 key.role && is_on key.resource_name r.1) (roles grp)
      ≡ is_on key.resource_name (device key.role grp)
any-roles key grp = go key.role key.resource_name
  where
    go :
        (role : Role) (name : Name)
        → any (λ r. same_role r.0 role && is_on name r.1) (roles grp) ≡ is_on name (device role grp)
    go relay_matrix_name name = ground arith
    go smu_name name = ground arith
    go dmm_name name = ground arith
    go daq_name name = ground arith
    go ntc_daq_name name = ground arith
    go sense_relay_matrix_name name = ground arith

-- Some enabled entry named `g` has the device `key.resource_name` in the role `key.role`.
abbrev pub uses : Name → ResourceKey → Groups → Bool
uses g key = any λ e. (e.0 == g) && (e.1.enabled && is_on key.resource_name (device key.role e.1))

elem-users-topology_from :
    (g : Name) (key : ResourceKey) (gs : Groups) (u : Usage)
    → elem g (users key (topology_from gs u)) ≡ (elem g (users key u) || uses g key gs)
unfolding topology_from
elem-users-topology_from g key [] u = ground arith
elem-users-topology_from g key ((name, grp) ∷ rest) u = ground (
  arith,
  elem-users-topology_from g key rest u,
  elem-users-topology_from g key rest (add_uses name (roles grp) u),
  elem-users-add_uses g name key (roles grp) u,
  any-roles key grp,
)

-- A group is recorded for a resource exactly when it is enabled and its configuration names that
-- resource in that role, the NTC role falling back to the DAQ.
pub elem-discover_topology :
    (g : Name) (key : ResourceKey) (gs : Groups)
    → elem g (users key (discover_topology gs)) ≡ uses g key gs
unfolding discover_topology
elem-discover_topology g key gs = elem-users-topology_from g key gs []
