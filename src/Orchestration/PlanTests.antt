-- ===== src/Orchestration/PlanTests.antt =====
-- Workers, resource graphs and plans on the configurations of tests/test_execution_plan.py.
use nipxi.Prelude.{◌≡◌, refl, true, false, [], ◌∷◌, none, some, All}
use nipxi.Orchestration.Workers.{Name, Group, Groups, discover_workers, place_group, partition}
use nipxi.Orchestration.Topology.{discover_topology, add_use, add_uses, topology_from}
use nipxi.Orchestration.ResourceGraph.{build_resource_graph, shared_of, conflicts_of, all_conflicts}
use nipxi.Orchestration.ExecutionPlan.{
  build_execution_plan, included_workers, plan_test, place, assign_batches, conflict_pairs,
}
use nipxi.Orchestration.ExecutionPlan.Promises.{SharesNothing, build_execution_plan-SharesNothing}

abbrev group_with : Name → Name → Group
group_with smu matrix = record {
  enabled = true;
  relay_matrix = some matrix;
  smu = some smu;
  dmm = some 30;
  daq = none;
  ntc_daq = none;
  sense_channel = none;
}

-- 11 and 12 share the relay matrix 22; 13 has its own devices, and runs on the SMU of 11 too.
abbrev rack : Groups
rack =
    (11, group_with 1 22)
    ∷ (12, group_with 2 22)
    ∷ (13, record (group_with 3 23) { dmm = none })
    ∷ (14, group_with 1 22)
    ∷ (15, record (group_with 4 24) { enabled = false })
    ∷ []

rack_batches : (build_execution_plan rack none).parallel_batches ≡ (1 ∷ 3 ∷ []) ∷ (2 ∷ []) ∷ []
unfolding build_execution_plan included_workers plan_test build_resource_graph discover_workers
    discover_topology partition place_group topology_from add_uses add_use shared_of conflicts_of
    all_conflicts place assign_batches conflict_pairs
rack_batches = refl

build_execution_plan-SharesNothing_example :
    All
      (SharesNothing (build_resource_graph rack).workers)
      (build_execution_plan rack none).parallel_batches
build_execution_plan-SharesNothing_example = build_execution_plan-SharesNothing rack none
