-- ===== src/Orchestration/ResourceGraph/Conflicts.antt =====
-- The conflicts of the graph, against the dependencies of its workers.
use nipxi.Prelude.{
  ◌≡◌, refl, sym, ap, ◌≢◌, Bool, true, false, ◌&&◌, ◌||◌, List, [], ◌∷◌, ◌++◌, map, arith, ◌==◌,
  if◌then◌else◌, nat_eq, elem, any, any-append, ==_iff, meet, is_empty, IsDistinct, Bool-cases, inl,
  inr, ◌⊎◌,
}
use nipxi.Orchestration.Workers.{Name, Groups, WorkerPlan, discover_workers}
use nipxi.Orchestration.Workers.Partition.{discover_workers-IsDistinct}
use nipxi.Orchestration.Topology.{key_eq, Usage, discover_topology}
use nipxi.Orchestration.ResourceGraph.{
  overlap, with_shared, Conflicts, conflicts_of, all_conflicts, build_resource_graph,
}

abbrev pub names : List WorkerPlan → List Name
names [] = []
names (w ∷ ws) = w.smu_name ∷ names ws

-- `frozenset((a, b)) == frozenset(pair)`
abbrev pub same_pair : Name → Name → Name × Name → Bool
same_pair a b p = (p.0 == a && p.1 == b) || (p.0 == b && p.1 == a)

abbrev pub in_conflict : Conflicts → Name → Name → Bool
in_conflict cs a b = any (λ c. same_pair a b c.0) cs

-- The worker with this SMU shares a resource with one of these dependencies.
abbrev pub shares : List Name → Name → List WorkerPlan → Bool
shares deps b = any λ w. (w.smu_name == b) && overlap deps w.shared_dependencies

in_conflict-conflicts_of :
    (a b : Name) (w : WorkerPlan) (ws : List WorkerPlan)
    → in_conflict (conflicts_of w ws) a b ≡ (
        ((w.smu_name == a) && shares w.shared_dependencies b ws)
        || ((w.smu_name == b) && shares w.shared_dependencies a ws))
unfolding conflicts_of
in_conflict-conflicts_of a b w [] = ground arith
in_conflict-conflicts_of a b w (v ∷ ws) =
    elim (Bool-cases (is_empty (meet w.shared_dependencies v.shared_dependencies))) [
      | inl e ↦ rw (e, in_conflict-conflicts_of a b w ws) (ground arith)
      | inr e ↦
          rw (e, in_conflict-conflicts_of a b w ws)
            (spread (w.smu_name == a) (v.smu_name == b) (w.smu_name == b) (v.smu_name == a)
              (shares w.shared_dependencies b ws) (shares w.shared_dependencies a ws))
    ]
  where
    spread :
        (wa vb wb va sb sa : Bool)
        → (((wa && vb) || (wb && va)) || ((wa && sb) || (wb && sa)))
          ≡ ((wa && ((vb && true) || sb)) || (wb && ((va && true) || sa)))
    spread wa vb wb va sb sa = ground arith

-- The dependencies of the worker with this SMU.
abbrev pub deps_of : Name → List WorkerPlan → List Name
deps_of a [] = []
deps_of a (w ∷ ws) = if w.smu_name == a then w.shared_dependencies else deps_of a ws

shares_absent :
    (deps : List Name) (b : Name) (ws : List WorkerPlan)
    → elem b (names ws) ≡ false
    → shares deps b ws ≡ false
shares_absent deps b [] h = refl
shares_absent deps b (w ∷ ws) h = ground (arith, shares_absent deps b ws)

deps_of_absent : (a : Name) (ws : List WorkerPlan) → elem a (names ws) ≡ false → deps_of a ws ≡ []
deps_of_absent a [] h = refl
deps_of_absent a (w ∷ ws) h = ground (arith, deps_of_absent a ws)

pub overlap_nil : (xs : List Name) → overlap xs [] ≡ false
overlap_nil [] = refl
overlap_nil (x ∷ xs) = overlap_nil xs

overlap-cons :
    (x : Name) (xs own : List Name) → overlap (x ∷ xs) own ≡ (elem x own || overlap xs own)
overlap-cons x xs own = ground arith

overlap_cons_right :
    (y : Name) (xs ys : List Name) → overlap xs (y ∷ ys) ≡ (elem y xs || overlap xs ys)
overlap_cons_right y [] ys = refl
overlap_cons_right y (x ∷ xs) ys =
    ground (arith, overlap_cons_right y xs ys, overlap-cons x xs ys, overlap-cons x xs (y ∷ ys))

pub overlap_comm : (xs ys : List Name) → overlap xs ys ≡ overlap ys xs
overlap_comm [] ys = sym (overlap_nil ys)
overlap_comm (x ∷ xs) ys =
    ground (arith, overlap-cons x xs ys, overlap_cons_right x ys xs, overlap_comm xs ys)

shares-eq-overlap :
    (deps : List Name) (b : Name) (ws : List WorkerPlan)
    → IsDistinct (names ws)
    → shares deps b ws ≡ overlap deps (deps_of b ws)
shares-eq-overlap deps b [] h = sym (overlap_nil deps)
shares-eq-overlap deps b (w ∷ ws) h =
    ground (arith, shares-eq-overlap deps b ws h.1, shares_absent deps b ws, ==_iff w.smu_name b)

or_false : (x : Bool) → (x || false) ≡ x
or_false x = ground arith

or_falses : (x : Bool) → ((x || false) || false) ≡ x
or_falses x = ground arith

in_conflict-append :
    (cs ds : Conflicts) (a b : Name)
    → in_conflict (cs ++ ds) a b ≡ (in_conflict cs a b || in_conflict ds a b)
in_conflict-append cs ds a b = any-append (λ c. same_pair a b c.0) cs ds

-- Two workers are in conflict exactly when their dependencies have a resource in common.
pub in_conflict-all_conflicts :
    (a b : Name) (ws : List WorkerPlan)
    → IsDistinct (names ws)
    → a ≢ b
    → in_conflict (all_conflicts ws) a b ≡ overlap (deps_of a ws) (deps_of b ws)
unfolding all_conflicts
in_conflict-all_conflicts a b [] h ne = refl
in_conflict-all_conflicts a b (w ∷ ws) h ne =
    rw
      (
        in_conflict-append (conflicts_of w ws) (all_conflicts ws) a b,
        in_conflict-conflicts_of a b w ws,
        in_conflict-all_conflicts a b ws h.1 ne,
        shares-eq-overlap w.shared_dependencies a ws h.1,
        shares-eq-overlap w.shared_dependencies b ws h.1,
      )
      (pick (Bool-cases (w.smu_name == a)) (Bool-cases (w.smu_name == b)))
  where
    absent : (c : Name) → (w.smu_name == c) ≡ true → deps_of c ws ≡ []
    absent c e = deps_of_absent c ws (rw ((==_iff w.smu_name c).0 e) at h.0)

    pick :
        ((w.smu_name == a) ≡ true) ⊎ ((w.smu_name == a) ≡ false)
        → ((w.smu_name == b) ≡ true) ⊎ ((w.smu_name == b) ≡ false)
        → ((((w.smu_name == a) && overlap w.shared_dependencies (deps_of b ws))
              || ((w.smu_name == b) && overlap w.shared_dependencies (deps_of a ws)))
            || overlap (deps_of a ws) (deps_of b ws))
          ≡ overlap (deps_of a (w ∷ ws)) (deps_of b (w ∷ ws))
    pick (inl p) (inl q) = absurd (ne (ground arith))
    pick (inl p) (inr q) =
        rw (p, q, absent a p) (or_falses (overlap w.shared_dependencies (deps_of b ws)))
    pick (inr p) (inl q) =
        rw
          (
            p,
            q,
            absent b q,
            overlap_nil (deps_of a ws),
            overlap_comm w.shared_dependencies (deps_of a ws),
          )
          (or_false (overlap (deps_of a ws) w.shared_dependencies))
    pick (inr p) (inr q) = rw (p, q)

names-map :
    (u : Usage) (ws : List WorkerPlan) → names (map (with_shared u) ws) ≡ map (λ w. w.smu_name) ws
names-map u [] = refl
names-map u (w ∷ ws) = ap (λ l. w.smu_name ∷ l) (names-map u ws)

-- The workers of the graph have distinct SMUs.
pub build_resource_graph-IsDistinct :
    (gs : Groups) → IsDistinct (names (build_resource_graph gs).workers)
unfolding build_resource_graph
build_resource_graph-IsDistinct gs =
    rw (names-map (discover_topology gs) (discover_workers gs)) (discover_workers-IsDistinct gs)

-- In the graph of a configuration two different workers are in conflict exactly when some resource
-- is a dependency of both.
pub build_resource_graph-in_conflict :
    (gs : Groups) (a b : Name)
    → a ≢ b
    → let g = build_resource_graph gs in
      in_conflict g.conflicts a b ≡ overlap (deps_of a g.workers) (deps_of b g.workers)
build_resource_graph-in_conflict gs a b ne =
    unfold build_resource_graph in
    in_conflict-all_conflicts a b (build_resource_graph gs).workers
      (build_resource_graph-IsDistinct gs) ne
