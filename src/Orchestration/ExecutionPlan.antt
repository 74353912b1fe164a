-- ===== src/Orchestration/ExecutionPlan.antt =====
-- orchestration/execution_plan.py: the workers in batches of which no two members conflict, and in
-- an order in which each waits for the earlier ones that it conflicts with.
pub mod Batches
pub mod Order
pub mod Promises
use nipxi.Prelude.{
  Bool, true, false, not, ◌&&◌, ◌||◌, Option, none, some, List, [], ◌∷◌, ◌++◌, map, ◌==◌,
  if◌then◌else◌, any, elem, keep,
}
use nipxi.Orchestration.Workers.{Name, Groups, WorkerPlan}
use nipxi.Orchestration.ResourceGraph.{Conflicts, ResourceGraph, build_resource_graph}
use nipxi.Orchestration.ResourceGraph.Conflicts.{in_conflict, names}

pub record ExecutionStep : Type 0 where
  pub smu_name : Name
  pub groups : List Name
  pub depends_on : List Name

pub record ExecutionPlan : Type 0 where
  pub steps : List ExecutionStep
  pub parallel_batches : List (List Name)
  pub excluded_workers : List Name

-- `frozenset((a, b)) in conflict_pairs`
abbrev pub Test : Type 0
Test = Name → Name → Bool

-- The inner loop over `batches`, with its `else`.
unfoldable pub place : Test → Name → List (List Name) → List (List Name)
place conflicting name [] = (name ∷ []) ∷ []
place conflicting name (batch ∷ batches) =
    if any (conflicting name) batch
    then batch ∷ place conflicting name batches
    else (batch ++ name ∷ []) ∷ batches

unfoldable pub assign_batches : Test → List Name → List (List Name) → List (List Name)
assign_batches conflicting [] batches = batches
assign_batches conflicting (name ∷ rest) batches =
    assign_batches conflicting rest (place conflicting name batches)

-- `workers_by_name[name].groups`; the names are distinct.
unfoldable pub groups_of : List WorkerPlan → Name → List Name
groups_of [] name = []
groups_of (w ∷ ws) name = if w.smu_name == name then w.groups else groups_of ws name

unfoldable pub batch_steps : Test → (Name → List Name) → List Name → List Name → List ExecutionStep
batch_steps conflicting groups_by_name scheduled [] = []
batch_steps conflicting groups_by_name scheduled (name ∷ rest) =
    record {
      smu_name = name;
      groups = groups_by_name name;
      depends_on = keep (conflicting name) scheduled;
    }
    ∷ batch_steps conflicting groups_by_name scheduled rest

unfoldable pub schedule :
    Test → (Name → List Name) → List Name → List (List Name) → List ExecutionStep
unfolding batch_steps
schedule conflicting groups_by_name scheduled [] = []
schedule conflicting groups_by_name scheduled (batch ∷ batches) =
    batch_steps conflicting groups_by_name scheduled batch
    ++ schedule conflicting groups_by_name (scheduled ++ batch) batches

abbrev pub is_enabled : Option (List Name) → WorkerPlan → Bool
is_enabled none w = true
is_enabled (some enabled_workers) w = elem w.smu_name enabled_workers

-- The conflicts between two included workers.
unfoldable pub conflict_pairs : List Name → Conflicts → Conflicts
conflict_pairs included_names = keep λ c. elem c.0.0 included_names && elem c.0.1 included_names

unfoldable pub included_workers : Groups → Option (List Name) → List WorkerPlan
included_workers groups enabled_workers =
    keep (is_enabled enabled_workers) (build_resource_graph groups).workers

-- The conflict test of the plan.
unfoldable pub plan_test : Groups → Option (List Name) → Test
unfolding conflict_pairs
plan_test groups enabled_workers = in_conflict (
    conflict_pairs (names (included_workers groups enabled_workers))
      (build_resource_graph groups).conflicts)

unfoldable pub build_execution_plan : Groups → Option (List Name) → ExecutionPlan
build_execution_plan groups enabled_workers =
    let included = included_workers groups enabled_workers in
    let excluded =
      keep (λ w. not (is_enabled enabled_workers w)) (build_resource_graph groups).workers in
    let conflicting = plan_test groups enabled_workers in
    let batches = assign_batches conflicting (names included) [] in
    record {
      steps = schedule conflicting (groups_of included) [] batches;
      parallel_batches = batches;
      excluded_workers = names excluded;
    }
