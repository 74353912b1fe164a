-- ===== src/Orchestration/ResourceGraph.antt =====
-- orchestration/resource_graph.py: what each worker depends on besides its SMU, and which pairs of
-- workers depend on a resource in common.
pub mod Dependencies
pub mod Conflicts
use nipxi.Prelude.{
  ℕ, ◌≡◌, ◌↔◌, Bool, true, false, not, ◌&&◌, ◌||◌, Option, none, some, List, [], ◌∷◌, ◌++◌, map,
  arith, Dict, adjust, ◌==◌, if◌then◌else◌, add, any, elem, meet, is_empty,
}
use nipxi.Orchestration.Workers.{Name, Group, Groups, WorkerPlan, discover_workers}
use nipxi.Orchestration.Topology.{ResourceKey, Role, smu_name, same_role, Usage, discover_topology}

-- `group_names & groups_by_worker[...]` as a condition.
abbrev pub overlap : List Name → List Name → Bool
overlap xs ys = not (is_empty (meet xs ys))

-- The inner loop of `build_resource_graph`: the set `shared` of one worker.
unfoldable pub shared_of : List Name → Usage → List Name → List Name
shared_of own [] shared = shared
shared_of own ((key, group_names) ∷ rest) shared = shared_of own rest (
    if same_role key.role smu_name
    then shared
    else if overlap group_names own
    then add key.resource_name shared
    else shared)

-- `groups_by_worker` has an entry for each worker, the set of its groups; the SMU names that index
-- it are distinct, so the entry of a worker is its own.
abbrev pub with_shared : Usage → WorkerPlan → WorkerPlan
with_shared usage w = record w { shared_dependencies = shared_of w.groups usage [] }

-- `{(smu_name_a, smu_name_b): {resource names}}`
abbrev pub Conflicts : Type 0
Conflicts = List ((Name × Name) × List Name)

-- The pairs of `combinations(workers, 2)` whose first member is `a`.
unfoldable pub conflicts_of : WorkerPlan → List WorkerPlan → Conflicts
conflicts_of a [] = []
conflicts_of a (b ∷ rest) =
    let later = conflicts_of a rest in
    let common = meet a.shared_dependencies b.shared_dependencies in
    if is_empty common then later else ((a.smu_name, b.smu_name), common) ∷ later

unfoldable pub all_conflicts : List WorkerPlan → Conflicts
unfolding conflicts_of
all_conflicts [] = []
all_conflicts (a ∷ rest) = conflicts_of a rest ++ all_conflicts rest

pub record ResourceGraph : Type 0 where
  pub workers : List WorkerPlan
  pub conflicts : Conflicts

unfoldable pub build_resource_graph : Groups → ResourceGraph
build_resource_graph groups =
    let workers = map (with_shared (discover_topology groups)) (discover_workers groups) in
    record { workers = workers; conflicts = all_conflicts workers }
