-- ===== src/Orchestration/ExecutionPlan/Promises.antt =====
-- What a whole plan promises of the configuration that it was built from.
use nipxi.Prelude.{
  ◌≡◌, ◌≢◌, refl, sym, ap, ◌∙◌, Bool, true, false, ◌&&◌, ◌||◌, List, [], ◌∷◌, arith, any, elem,
  elem-append, All, All-implies, count, flatten, Bool-cases, inl, inr, Option, ==_iff, ltb,
}
use nipxi.Orchestration.Workers.{Name, Groups, WorkerPlan}
use nipxi.Orchestration.ResourceGraph.{Conflicts, build_resource_graph, overlap}
use nipxi.Orchestration.ResourceGraph.Conflicts.{
  in_conflict, names, same_pair, deps_of, build_resource_graph-in_conflict,
}
use nipxi.Orchestration.ExecutionPlan.{
  Test, assign_batches, conflict_pairs, included_workers, plan_test, groups_of,
  build_execution_plan,
}
use nipxi.Orchestration.ExecutionPlan.Batches.{
  IsIndependent, IsTight, count-assign_batches, assign_batches-IsIndependent,
  assign_batches-IsTight,
}
use nipxi.Orchestration.ExecutionPlan.Order.{
  IsOrdered, step_names, step_names-schedule, schedule-IsOrdered,
}

same_pair_comm : (a b : Name) (p : Name × Name) → same_pair a b p ≡ same_pair b a p
same_pair_comm a b p = ground arith

in_conflict_comm : (cs : Conflicts) (a b : Name) → in_conflict cs a b ≡ in_conflict cs b a
in_conflict_comm [] a b = refl
in_conflict_comm (e ∷ cs) a b = rw (same_pair_comm a b e.0, in_conflict_comm cs a b)

pub plan_test_comm :
    (gs : Groups) (en : Option (List Name)) (a b : Name) → plan_test gs en a b ≡ plan_test gs en b a
unfolding plan_test
plan_test_comm gs en a b =
    in_conflict_comm
      (conflict_pairs (names (included_workers gs en)) (build_resource_graph gs).conflicts) a b

outsider :
    (inc : List Name) (a b x y : Name)
    → elem a inc ≡ true
    → elem b inc ≡ true
    → (elem x inc && elem y inc) ≡ false
    → same_pair a b (x, y) ≡ false
outsider inc a b x y ha hb e = ground (arith, ==_iff x a, ==_iff y b, ==_iff x b, ==_iff y a)

-- Dropping the conflicts of excluded workers changes nothing between included ones.
in_conflict-conflict_pairs :
    (inc : List Name) (cs : Conflicts) (a b : Name)
    → elem a inc ≡ true
    → elem b inc ≡ true
    → in_conflict (conflict_pairs inc cs) a b ≡ in_conflict cs a b
unfolding conflict_pairs
in_conflict-conflict_pairs inc [] a b ha hb = refl
in_conflict-conflict_pairs inc (((x, y), r) ∷ cs) a b ha hb =
    elim (Bool-cases (elem x inc && elem y inc)) [
      | inl e ↦ rw (e, in_conflict-conflict_pairs inc cs a b ha hb)
      | inr e ↦ rw (e, in_conflict-conflict_pairs inc cs a b ha hb, outsider inc a b x y ha hb e)
    ]

-- The test of the plan says which two included workers have a resource in common.
pub plan_test-eq-overlap :
    (gs : Groups) (en : Option (List Name)) (a b : Name)
    → elem a (names (included_workers gs en)) ≡ true
    → elem b (names (included_workers gs en)) ≡ true
    → a ≢ b
    → let ws = (build_resource_graph gs).workers in
      plan_test gs en a b ≡ overlap (deps_of a ws) (deps_of b ws)
unfolding plan_test
plan_test-eq-overlap gs en a b ha hb ne =
    in_conflict-conflict_pairs (names (included_workers gs en)) (build_resource_graph gs).conflicts
      a b ha hb
    ∙ build_resource_graph-in_conflict gs a b ne

elem_of_count : (x : Name) (xs : List Name) → elem x xs ≡ ltb 0 (count x xs)
elem_of_count x [] = refl
elem_of_count x (y ∷ xs) = ground (arith, elem_of_count x xs)

-- The batches of a plan hold the included workers, each once, and the steps run them in that order.
pub build_execution_plan_complete :
    (gs : Groups) (en : Option (List Name))
    → let plan = build_execution_plan gs en in
      ((x : Name)
        → count x (flatten plan.parallel_batches) ≡ count x (names (included_workers gs en)))
      × (step_names plan.steps ≡ flatten plan.parallel_batches)
unfolding build_execution_plan
build_execution_plan_complete gs en = (
  λ x.
      rw (count-assign_batches (plan_test gs en) x (names (included_workers gs en)) [])
        (omega arith),
  step_names-schedule (plan_test gs en) (groups_of (included_workers gs en)) []
      (assign_batches (plan_test gs en) (names (included_workers gs en)) []),
)

batches-IsIndependent :
    (gs : Groups) (en : Option (List Name))
    → All (IsIndependent (plan_test gs en)) (build_execution_plan gs en).parallel_batches
unfolding build_execution_plan
batches-IsIndependent gs en =
    assign_batches-IsIndependent (plan_test gs en) (plan_test_comm gs en)
      (names (included_workers gs en)) [] tt

-- Each step waits for exactly the workers that stand before it in the plan and conflict with it.
pub build_execution_plan-IsOrdered :
    (gs : Groups) (en : Option (List Name))
    → IsOrdered (plan_test gs en) [] (build_execution_plan gs en).steps
unfolding build_execution_plan
build_execution_plan-IsOrdered gs en =
    schedule-IsOrdered (plan_test gs en) (plan_test_comm gs en) (groups_of (included_workers gs en))
      [] (assign_batches (plan_test gs en) (names (included_workers gs en)) [])
      (unfold build_execution_plan in batches-IsIndependent gs en)

-- A worker is put in a later batch only when it conflicts with a member of every earlier batch.
pub build_execution_plan-IsTight :
    (gs : Groups) (en : Option (List Name))
    → IsTight (plan_test gs en) (build_execution_plan gs en).parallel_batches
unfolding build_execution_plan
build_execution_plan-IsTight gs en =
    assign_batches-IsTight (plan_test gs en) (names (included_workers gs en)) [] tt

-- No resource is a dependency of two members of the batch.
abbrev pub SharesNothing : List WorkerPlan → List Name → Type 0
SharesNothing ws batch =
    (a b : Name)
    → elem a batch ≡ true
    → elem b batch ≡ true
    → a ≢ b
    → overlap (deps_of a ws) (deps_of b ws) ≡ false

any_of_elem :
    (p : Name → Bool) (b : Name) (xs : List Name)
    → any p xs ≡ false
    → elem b xs ≡ true
    → p b ≡ false
any_of_elem p b [] h e = cc
any_of_elem p b (x ∷ xs) h e = ground (arith, any_of_elem p b xs, ==_iff x b)

IsIndependent-pair :
    (c : Test) (symmetric : (x y : Name) → c x y ≡ c y x) (a b : Name) (xs : List Name)
    → IsIndependent c xs
    → elem a xs ≡ true
    → elem b xs ≡ true
    → a ≢ b
    → c a b ≡ false
IsIndependent-pair c symmetric a b [] i ha hb ne = cc
IsIndependent-pair c symmetric a b (x ∷ xs) i ha hb ne = ground (
  arith,
  ==_iff x a,
  ==_iff x b,
  symmetric a b,
  any_of_elem (c x) b xs i.0,
  any_of_elem (c x) a xs i.0,
  IsIndependent-pair c symmetric a b xs i.1,
)

All-members :
    (bss : List (List Name)) (P : List Name → Type 0)
    → All P bss
    → All (λ b. P b × ((x : Name) → elem x b ≡ true → elem x (flatten bss) ≡ true)) bss
All-members [] P h = tt
All-members (b ∷ bss) P h = (
  (h.0, λ x e. rw (elem-append x b (flatten bss), e)),
  All-implies bss
      (λ c k. (k.0, λ x e. rw (elem-append x b (flatten bss), k.1 x e) (or_true (elem x b))))
      (All-members bss P h.1),
)
  where
    or_true : (t : Bool) → (t || true) ≡ true
    or_true t = ground arith

-- No two workers of one batch of a plan have a resource in common.
pub build_execution_plan-SharesNothing :
    (gs : Groups) (en : Option (List Name))
    → All
        (SharesNothing (build_resource_graph gs).workers)
        (build_execution_plan gs en).parallel_batches
build_execution_plan-SharesNothing gs en =
    All-implies bss
      (λ batch h a b ha hb ne.
        sym (plan_test-eq-overlap gs en a b (included a (h.1 a ha)) (included b (h.1 b hb)) ne)
        ∙ IsIndependent-pair (plan_test gs en) (plan_test_comm gs en) a b batch h.0 ha hb ne)
      (All-members bss (IsIndependent (plan_test gs en)) (batches-IsIndependent gs en))
  where
    bss : List (List Name)
    bss = (build_execution_plan gs en).parallel_batches

    included :
        (x : Name) → elem x (flatten bss) ≡ true → elem x (names (included_workers gs en)) ≡ true
    included x e =
        elem_of_count x (names (included_workers gs en))
        ∙ ap (λ n. ltb 0 n) (sym ((build_execution_plan_complete gs en).0 x))
        ∙ sym (elem_of_count x (flatten bss))
        ∙ e
