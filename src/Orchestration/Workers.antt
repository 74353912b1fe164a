-- ===== src/Orchestration/Workers.antt =====
-- orchestration/workers.py: the battery groups of config/devices.py, partitioned by their SMU.
pub mod Partition
use nipxi.Prelude.{
  ℕ, Bool, not, Option, none, some, List, [], ◌∷◌, ◌++◌, map, Dict, adjust, if◌then◌else◌, nat_eq,
}

-- A device nickname or a group name. The code compares names and never reads their characters;
-- 0 stands for the empty string, which Python takes for false.
abbrev pub Name : Type 0
Name = ℕ

-- The fields of a BATTERY_GROUPS entry that the orchestration layer reads.
pub record Group : Type 0 where
  pub enabled : Bool
  pub relay_matrix : Option Name
  pub smu : Option Name
  pub dmm : Option Name
  pub daq : Option Name
  pub ntc_daq : Option Name
  pub sense_channel : Option ℕ

abbrev pub Groups : Type 0
Groups = Dict Name Group

pub record WorkerPlan : Type 0 where
  pub smu_name : Name
  pub groups : List Name
  pub shared_dependencies : List Name

-- One round of the loop of `discover_workers`.
unfoldable pub place_group : Name → Group → Dict Name (List Name) → Dict Name (List Name)
place_group name grp by_smu = if not grp.enabled then by_smu else elim grp.smu [
  | none ↦ by_smu
  | some smu_name ↦ adjust smu_name [] (λ names. names ++ name ∷ []) by_smu
]

unfoldable pub partition : Groups → Dict Name (List Name) → Dict Name (List Name)
partition [] by_smu = by_smu
partition ((name, grp) ∷ rest) by_smu = partition rest (place_group name grp by_smu)

abbrev pub to_plan : Name × List Name → WorkerPlan
to_plan (smu_name, names) = record { smu_name = smu_name; groups = names; shared_dependencies = [] }

unfoldable pub discover_workers : Groups → List WorkerPlan
unfolding partition
discover_workers groups = map to_plan (partition groups [])
