-- ===== src/Orchestration/Ownership.antt =====
-- orchestration/resource_ownership.py: whether groups that are to run at the same time share a
-- resource. SENSE_ROUTING of config/devices.py is a parameter, as the relay matrix of each channel.
pub mod Counting
pub mod Disjoint
use nipxi.Prelude.{
  ℕ, Bool, true, false, not, ◌&&◌, Option, none, some, List, [], ◌∷◌, map, Dict, lookup, insert,
  adjust, or_default, update, add, meet, is_empty, if◌then◌else◌, ◌==◌, nat_eq,
}
use nipxi.Prelude.Exec.{Result, ok, err}
use nipxi.Orchestration.Workers.{Name, Group, Groups, WorkerPlan, discover_workers}
use nipxi.Orchestration.Topology.{
  ResourceKey, Role, smu_name, sense_relay_matrix_name, same_role, Usage, key_eq, add_use,
  discover_topology,
}
use nipxi.Orchestration.ResourceGraph.{overlap, Conflicts, build_resource_graph}

-- `{name: groups[name] for name in group_names}`; an unknown name is a KeyError.
unfoldable pub request_from : Groups → List Name → Groups → Option Groups
request_from requested [] groups = some requested
request_from requested (name ∷ names) groups =
    let rest = λ (grp : Group). request_from (insert name grp requested) names groups in
    elim (lookup name groups) [ none ↦ none | some grp ↦ rest grp ]

abbrev pub sense_matrix : Dict ℕ Name → Group → Option Name
sense_matrix routing grp = elim grp.sense_channel [
  | none ↦ none
  | some channel ↦ lookup channel routing
]

-- `_sense_routing_usage` after the groups before these.
unfoldable pub sense_routing_usage : Dict ℕ Name → Groups → Usage → Usage
sense_routing_usage routing [] usage = usage
sense_routing_usage routing ((name, grp) ∷ rest) usage =
    sense_routing_usage routing rest
      (add_use name sense_relay_matrix_name (sense_matrix routing grp) usage)

-- `usage.setdefault(key, set()).update(names)` for each entry of a second usage.
unfoldable pub merge : Usage → Usage → Usage
merge usage [] = usage
merge usage ((key, names) ∷ rest) = merge (adjust key [] (λ s. update s names) usage) rest

abbrev pub matches : Name → ResourceKey × List Name → Bool
matches resource_name (key, names) =
    key.resource_name == resource_name && not (same_role key.role smu_name)

abbrev pub add_conflict : ResourceKey → List Name → Usage → Usage
add_conflict key names conflicts = adjust key [] (λ s. update s names) conflicts

-- The loop over the keys of the usage, for one name.
unfoldable pub name_conflicts : Name → Usage → Usage → Usage
name_conflicts name [] conflicts = conflicts
name_conflicts name ((key, names) ∷ rest) conflicts =
    name_conflicts name rest
      (if matches name (key, names) then add_conflict key names conflicts else conflicts)

unfoldable pub names_conflicts : Usage → List Name → Usage → Usage
names_conflicts usage [] conflicts = conflicts
names_conflicts usage (name ∷ names) conflicts =
    names_conflicts usage names (name_conflicts name usage conflicts)

-- The loop over the conflicts of the resource graph.
unfoldable pub graph_conflicts : Usage → Conflicts → Usage → Usage
graph_conflicts usage [] conflicts = conflicts
graph_conflicts usage ((pair, names) ∷ rest) conflicts =
    graph_conflicts usage rest (names_conflicts usage names conflicts)

-- The entry of one worker in `sense_by_worker`.
unfoldable pub sense_matrices : List Name → Usage → List Name → List Name
sense_matrices own [] names = names
sense_matrices own ((key, group_names) ∷ rest) names = sense_matrices own rest (
    if same_role key.role sense_relay_matrix_name && overlap group_names own
    then add key.resource_name names
    else names)

abbrev pub sense_key : Name → ResourceKey
sense_key name = record { role = sense_relay_matrix_name; resource_name = name }

-- The loops over the pairs of workers and over the matrices that both use.
unfoldable pub sense_names_conflicts : Usage → List Name → Usage → Usage
sense_names_conflicts usage [] conflicts = conflicts
sense_names_conflicts usage (name ∷ names) conflicts =
    sense_names_conflicts usage names
      (add_conflict (sense_key name) (or_default [] (lookup (sense_key name) usage)) conflicts)

unfoldable pub sense_conflicts_of : Usage → List Name → List (List Name) → Usage → Usage
sense_conflicts_of usage a [] conflicts = conflicts
sense_conflicts_of usage a (b ∷ rest) conflicts =
    sense_conflicts_of usage a rest (sense_names_conflicts usage (meet a b) conflicts)

unfoldable pub sense_conflicts : Usage → List (List Name) → Usage → Usage
sense_conflicts usage [] conflicts = conflicts
sense_conflicts usage (a ∷ rest) conflicts =
    sense_conflicts usage rest (sense_conflicts_of usage a rest conflicts)

pub record ResourceOwnershipReport : Type 0 where
  pub usage : Usage
  pub conflicts : Usage

abbrev pub is_ok : ResourceOwnershipReport → Bool
is_ok report = is_empty report.conflicts

abbrev pub usage_of : Dict ℕ Name → Groups → Usage
usage_of routing requested =
    merge (discover_topology requested) (sense_routing_usage routing requested [])

abbrev pub sense_by_worker : Dict ℕ Name → Groups → List (List Name)
sense_by_worker routing requested =
    map (λ w. sense_matrices w.groups (usage_of routing requested) []) (discover_workers requested)

-- `check_ownership` of the requested groups.
unfoldable pub check_requested : Dict ℕ Name → Groups → ResourceOwnershipReport
check_requested routing requested =
    let usage = usage_of routing requested in
    let graph = build_resource_graph requested in
    record {
      usage = usage;
      conflicts =
          sense_conflicts usage (sense_by_worker routing requested)
            (graph_conflicts usage graph.conflicts []);
    }

unfoldable pub check_ownership : Dict ℕ Name → List Name → Groups → Option ResourceOwnershipReport
check_ownership routing group_names groups = elim (request_from [] group_names groups) [
  | none ↦ none
  | some requested ↦ some (check_requested routing requested)
]

-- `validate`; the error holds the conflicts of ResourceOwnershipConflict, or is a KeyError.
unfoldable pub validate :
    Dict ℕ Name → List Name → Groups → Result (Option Usage) ResourceOwnershipReport
validate routing group_names groups = elim (check_ownership routing group_names groups) [
  | none ↦ err none
  | some report ↦ if is_ok report then ok report else err (some report.conflicts)
]
