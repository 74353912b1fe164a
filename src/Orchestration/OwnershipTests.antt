-- ===== src/Orchestration/OwnershipTests.antt =====
-- Groups with their own devices, two of which share a sense matrix or not.
use nipxi.Prelude.{
  ℕ, ◌≡◌, refl, true, false, not, ◌&&◌, List, [], ◌∷◌, Dict, is_empty, arith, none, some,
}
use nipxi.Prelude.Exec.{ok}
use nipxi.Orchestration.Workers.{Name, Group, Groups, discover_workers, place_group, partition}
use nipxi.Orchestration.Topology.{discover_topology, add_use, add_uses, topology_from}
use nipxi.Orchestration.ResourceGraph.{
  build_resource_graph, shared_of, conflicts_of, all_conflicts, overlap,
}
use nipxi.Orchestration.ResourceGraph.Conflicts.{deps_of}
use nipxi.Orchestration.Ownership.{
  request_from, check_ownership, check_requested, validate, is_ok, sense_by_worker, merge,
  sense_routing_usage, graph_conflicts, sense_conflicts, sense_conflicts_of, sense_matrices,
  names_conflicts, name_conflicts, sense_names_conflicts,
}
use nipxi.Orchestration.Ownership.Counting.{overlap_somewhere}
use nipxi.Orchestration.Ownership.Disjoint.{check_requested-is_ok, validate-excludes}

-- Sense channels 1 and 2 on the matrix 50, and 3 on the matrix 22.
abbrev routing : Dict ℕ Name
routing = (1, 50) ∷ (2, 50) ∷ (3, 22) ∷ []

abbrev group_on : Name → Name → ℕ → Group
group_on smu matrix channel = record {
  enabled = true;
  relay_matrix = some matrix;
  smu = some smu;
  dmm = none;
  daq = none;
  ntc_daq = none;
  sense_channel = some channel;
}

-- 11 and 12 have their sense channels on one matrix.
abbrev rack : Groups
rack = (11, group_on 1 21 1) ∷ (12, group_on 2 22 2) ∷ (13, group_on 3 23 3) ∷ []

check_requested-is_ok_example : is_ok (check_requested routing rack) ≡ (
    is_empty (build_resource_graph rack).conflicts
    && not (overlap_somewhere (sense_by_worker routing rack)))
check_requested-is_ok_example = check_requested-is_ok routing rack

abbrev names : List Name
names = 11 ∷ 13 ∷ []

abbrev asked : Groups
asked = (11, group_on 1 21 1) ∷ (13, group_on 3 23 3) ∷ []

requested_asked : request_from [] names rack ≡ some asked
unfolding request_from
requested_asked = refl

validate-asked : validate routing names rack ≡ ok (check_requested routing asked)
unfolding validate check_ownership request_from check_requested build_resource_graph
    discover_workers partition place_group discover_topology topology_from add_uses add_use
    shared_of conflicts_of all_conflicts merge sense_routing_usage graph_conflicts sense_conflicts
    sense_conflicts_of sense_matrices sense_names_conflicts names_conflicts name_conflicts
validate-asked = refl

validate-excludes_example :
    let ws = (build_resource_graph asked).workers in
    (overlap (deps_of 1 ws) (deps_of 3 ws) ≡ false)
    × (overlap_somewhere (sense_by_worker routing asked) ≡ false)
validate-excludes_example =
    validate-excludes routing names rack asked (check_requested routing asked) 1 3 requested_asked
      validate-asked (omega arith)

-- The sense matrix of 13 is the position matrix of 12: no conflict is found.
crossed :
    is_ok (check_requested routing ((12, group_on 2 22 2) ∷ (13, group_on 3 23 3) ∷ [])) ≡ true
unfolding check_requested build_resource_graph discover_workers partition place_group
    discover_topology topology_from add_uses add_use shared_of conflicts_of all_conflicts merge
    sense_routing_usage graph_conflicts sense_conflicts sense_conflicts_of sense_matrices
    sense_names_conflicts names_conflicts name_conflicts
crossed = refl
