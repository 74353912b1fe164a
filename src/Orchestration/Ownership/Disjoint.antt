-- ===== src/Orchestration/Ownership/Disjoint.antt =====
-- orchestration/resource_ownership.py: when a report has no conflict.
use nipxi.Prelude.{
  ℕ, ◌≡◌, refl, some, ◌≢◌, add, keep, Bool, true, false, not, ◌&&◌, ◌||◌, List, [], ◌∷◌, ◌++◌, map,
  any, any-append, arith, Dict, adjust, update, is_empty, elem, if◌then◌else◌,
}
use nipxi.Orchestration.Workers.{Name, Groups, WorkerPlan, discover_workers}
use nipxi.Orchestration.Topology.{
  ResourceKey, smu_name, same_role, Usage, key_eq, discover_topology,
}
use nipxi.Orchestration.ResourceGraph.{
  overlap, shared_of, with_shared, Conflicts, conflicts_of, all_conflicts, build_resource_graph,
}
use nipxi.Prelude.Exec.{ok}
use nipxi.Orchestration.ResourceGraph.Conflicts.{
  in_conflict, deps_of, build_resource_graph-in_conflict,
}
use nipxi.Orchestration.Ownership.Counting.{
  is_used, overlap_somewhere, is_empty-graph_conflicts, is_empty-sense_conflicts,
}
use nipxi.Orchestration.Ownership.{
  ResourceOwnershipReport, request_from, check_ownership, validate, merge, graph_conflicts,
  usage_of, sense_routing_usage, sense_by_worker, check_requested, is_ok,
}

-- Some of these names is not one of the usage.
abbrev unused : Usage → List Name → Bool
unused usage = any λ r. not (is_used usage r)

any-keep :
    (usage : Usage) (q : Name → Bool) (names : List Name)
    → unused usage names ≡ false
    → any (is_used usage) (keep q names) ≡ not (is_empty (keep q names))
any-keep usage q [] h = refl
any-keep usage q (r ∷ names) h = ground (arith, any-keep usage q names)

abbrev has_used : Usage → Conflicts → Bool
has_used usage = any λ c. any (is_used usage) c.1

has_used-conflicts_of :
    (usage : Usage) (a : WorkerPlan) (ws : List WorkerPlan)
    → unused usage a.shared_dependencies ≡ false
    → has_used usage (conflicts_of a ws) ≡ not (is_empty (conflicts_of a ws))
unfolding conflicts_of
has_used-conflicts_of usage a [] h = refl
has_used-conflicts_of usage a (b ∷ ws) h = ground (
  arith,
  has_used-conflicts_of usage a ws,
  any-keep usage (λ r. elem r b.shared_dependencies) a.shared_dependencies,
)

is_empty-append : {A : Type 0} (xs ys : List A) → is_empty (xs ++ ys) ≡ (is_empty xs && is_empty ys)
is_empty-append [] ys = ground arith
is_empty-append (x ∷ xs) ys = ground arith

has_used-all_conflicts :
    (usage : Usage) (ws : List WorkerPlan)
    → any (λ w. unused usage w.shared_dependencies) ws ≡ false
    → has_used usage (all_conflicts ws) ≡ not (is_empty (all_conflicts ws))
unfolding all_conflicts
has_used-all_conflicts usage [] h = refl
has_used-all_conflicts usage (a ∷ ws) h = ground (
  arith,
  has_used-all_conflicts usage ws,
  has_used-conflicts_of usage a ws,
  is_empty-append (conflicts_of a ws) (all_conflicts ws),
  any-append (λ c. any (is_used usage) c.1) (conflicts_of a ws) (all_conflicts ws),
)

is_used-adjust :
    (k : ResourceKey) (names : List Name) (r : Name) (usage : Usage)
    → is_used usage r ≡ true
    → is_used (adjust k [] (λ s. update s names) usage) r ≡ true
is_used-adjust k names r [] h = ground arith
is_used-adjust k names r ((j, w) ∷ usage) h = ground (arith, is_used-adjust k names r usage)

is_used-merge :
    (r : Name) (other usage : Usage) → is_used usage r ≡ true → is_used (merge usage other) r ≡ true
unfolding merge
is_used-merge r [] usage h = h
is_used-merge r ((k, names) ∷ other) usage h =
    is_used-merge r other (adjust k [] (λ s. update s names) usage)
      (is_used-adjust k names r usage h)

-- Each resource of the second usage but the SMUs is one of the first.
abbrev IsCovered : Usage → Usage → Type 0
IsCovered usage part = (r : Name) → is_used part r ≡ true → is_used usage r ≡ true

unused-snoc :
    (usage : Usage) (r : Name) (names : List Name)
    → unused usage (names ++ r ∷ []) ≡ (unused usage names || not (is_used usage r))
unused-snoc usage r [] = ground arith
unused-snoc usage r (x ∷ names) = ground (arith, unused-snoc usage r names)

unused-shared_of :
    (usage : Usage) (own : List Name) (part : Usage) (shared : List Name)
    → IsCovered usage part
    → unused usage shared ≡ false
    → unused usage (shared_of own part shared) ≡ false
unfolding shared_of
unused-shared_of usage own [] shared cover h = h
unused-shared_of usage own ((key, names) ∷ part) shared cover h =
    let name = key.resource_name in
    let next =
      if same_role key.role smu_name
      then shared
      else if overlap names own
      then add name shared
      else shared in
    unused-shared_of usage own part next (λ r k. cover r (ground arith))
      (ground (arith, unused-snoc usage name shared, cover name))

unused-with_shared :
    (usage part : Usage) (ws : List WorkerPlan)
    → IsCovered usage part
    → any (λ w. unused usage w.shared_dependencies) (map (with_shared part) ws) ≡ false
unused-with_shared usage part [] cover = refl
unused-with_shared usage part (w ∷ ws) cover = ground (
  arith,
  unused-shared_of usage w.groups part [] cover refl,
  unused-with_shared usage part ws cover,
)

-- The report on the requested groups is ok exactly when their resource graph has no conflict and no
-- two of their workers route a sense channel through the same matrix.
pub check_requested-is_ok :
    (routing : Dict ℕ Name) (requested : Groups)
    → is_ok (check_requested routing requested) ≡ (
        is_empty (build_resource_graph requested).conflicts
        && not (overlap_somewhere (sense_by_worker routing requested)))
unfolding check_requested build_resource_graph
check_requested-is_ok routing requested =
    let usage = usage_of routing requested in
    let topology = discover_topology requested in
    let ws = map (with_shared topology) (discover_workers requested) in
    let cover : IsCovered usage topology =
      λ r h. is_used-merge r (sense_routing_usage routing requested []) topology h in
    rw
      (
        is_empty-sense_conflicts usage (sense_by_worker routing requested)
            (graph_conflicts usage (all_conflicts ws) []),
        is_empty-graph_conflicts usage (all_conflicts ws) [],
        has_used-all_conflicts usage ws
            (unused-with_shared usage topology (discover_workers requested) cover),
      )
      (ground arith)

is_empty-in_conflict :
    (cs : Conflicts) (a b : Name) → is_empty cs ≡ true → in_conflict cs a b ≡ false
is_empty-in_conflict [] a b h = refl
is_empty-in_conflict (c ∷ cs) a b h = ground arith

-- When `validate` returns for the requested groups, no two different workers of theirs depend on a
-- common resource, and no two route a sense channel through the same matrix.
pub validate-excludes :
    (routing : Dict ℕ Name) (group_names : List Name) (groups requested : Groups)
    (report : ResourceOwnershipReport) (a b : Name)
    → request_from [] group_names groups ≡ some requested
    → validate routing group_names groups ≡ ok report
    → a ≢ b
    → let ws = (build_resource_graph requested).workers in
      (overlap (deps_of a ws) (deps_of b ws) ≡ false)
      × (overlap_somewhere (sense_by_worker routing requested) ≡ false)
unfolding validate check_ownership
validate-excludes routing group_names groups requested report a b e h ne = ground (
  arith,
  check_requested-is_ok routing requested,
  build_resource_graph-in_conflict requested a b ne,
  is_empty-in_conflict (build_resource_graph requested).conflicts a b,
)
