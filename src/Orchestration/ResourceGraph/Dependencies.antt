-- ===== src/Orchestration/ResourceGraph/Dependencies.antt =====
-- The dependencies of each worker in the graph, against the configuration.
use nipxi.Prelude.{
  ◌≡◌, ◌∙◌, Bool, true, not, ◌&&◌, ◌||◌, Option, none, some, List, [], ◌∷◌, ◌++◌, arith, adjust,
  ◌==◌, nat_eq, add, elem, elem-add, any, ==_iff, Bool-cases, inl, inr,
}
use nipxi.Orchestration.Workers.{Name, Group, Groups, WorkerPlan}
use nipxi.Orchestration.Workers.Partition.{is_on}
use nipxi.Orchestration.Topology.{
  Role, smu_name, ResourceKey, same_role, same_key, same_key_iff, key_eq, Usage, roles, add_use,
  add_uses, topology_from, discover_topology,
}
use nipxi.Orchestration.ResourceGraph.{overlap, shared_of, with_shared}

-- Some entry of the usage map, not of an SMU, gives the resource to one of the groups.
abbrev pub touches : Name → List Name → Usage → Bool
touches r own =
    any λ e. not (same_role e.0.role smu_name) && ((e.0.resource_name == r) && overlap e.1 own)

elem-shared_of :
    (r : Name) (own : List Name) (u : Usage) (shared : List Name)
    → elem r (shared_of own u shared) ≡ (elem r shared || touches r own u)
unfolding shared_of
elem-shared_of r own [] shared = ground arith
elem-shared_of r own ((key, names) ∷ u) shared = ground (
  arith,
  elem-shared_of r own u shared,
  elem-shared_of r own u (add key.resource_name shared),
  elem-add r key.resource_name shared,
)

overlap-cons :
    (x : Name) (xs own : List Name) → overlap (x ∷ xs) own ≡ (elem x own || overlap xs own)
overlap-cons x xs own = ground arith

overlap-snoc :
    (x : Name) (xs own : List Name) → overlap (xs ++ x ∷ []) own ≡ (overlap xs own || elem x own)
overlap-snoc x [] own = ground arith
overlap-snoc x (y ∷ xs) own = ground (arith, overlap-snoc x xs own)

overlap_of_elem :
    (x : Name) (xs own : List Name) → elem x xs ≡ true → elem x own ≡ true → overlap xs own ≡ true
overlap_of_elem x [] own h k = cc
overlap_of_elem x (y ∷ xs) own h k = ground (arith, overlap_of_elem x xs own, ==_iff y x)

overlap-add :
    (x : Name) (xs own : List Name) → overlap (add x xs) own ≡ (overlap xs own || elem x own)
overlap-add x xs own = ground (arith, overlap-snoc x xs own, overlap_of_elem x xs own)

regroup_hit :
    (c h o e t : Bool) → ((c && (h && (o || e))) || t) ≡ (((c && (h && o)) || t) || (c && (h && e)))
regroup_hit c h o e t = ground arith

regroup_miss : (a t b : Bool) → (a || (t || b)) ≡ ((a || t) || b)
regroup_miss a t b = ground arith

touches-adjust :
    (r : Name) (own : List Name) (key : ResourceKey) (name : Name) (u : Usage)
    → touches r own (adjust key [] (add name) u) ≡ (
        touches r own u
        || (not (same_role key.role smu_name) && ((key.resource_name == r) && elem name own)))
touches-adjust r own key name [] = ground arith
touches-adjust r own key name ((k, names) ∷ u) = elim (Bool-cases (same_key k key)) [
  | inl e ↦
      rw (e, (same_key_iff k key).0 e, overlap-add)
        (regroup_hit (not (same_role key.role smu_name)) (key.resource_name == r)
          (overlap names own) (elem name own) (touches r own u))
  | inr e ↦
      rw (e, touches-adjust r own key name u)
        (regroup_miss
          (not (same_role k.role smu_name) && ((k.resource_name == r) && overlap names own))
          (touches r own u)
          (not (same_role key.role smu_name) && ((key.resource_name == r) && elem name own)))
]

touches-add_use :
    (r : Name) (own : List Name) (name : Name) (role : Role) (o : Option Name) (u : Usage)
    → touches r own (add_use name role o u)
      ≡ (touches r own u || (not (same_role role smu_name) && (is_on r o && elem name own)))
unfolding add_use
touches-add_use r own name role none u = ground arith
touches-add_use r own name role (some d) u =
    touches-adjust r own (record { role = role; resource_name = d }) name u

touches-add_uses :
    (r : Name) (own : List Name) (name : Name) (rs : List (Role × Option Name)) (u : Usage)
    → touches r own (add_uses name rs u) ≡ (
        touches r own u
        || (any (λ p. not (same_role p.0 smu_name) && is_on r p.1) rs && elem name own))
unfolding add_uses
touches-add_uses r own name [] u = ground arith
touches-add_uses r own name ((role, o) ∷ rs) u =
    rw (touches-add_uses r own name rs (add_use name role o u), touches-add_use r own name role o u)
      (collect (touches r own u) (not (same_role role smu_name)) (is_on r o) (elem name own)
        (any (λ p. not (same_role p.0 smu_name) && is_on r p.1) rs))
  where
    collect :
        (t c o e a : Bool) → ((t || (c && (o && e))) || (a && e)) ≡ (t || (((c && o) || a) && e))
    collect t c o e a = ground arith

-- The group has the resource in a role other than that of the SMU.
abbrev pub depends_on : Name → Group → Bool
depends_on r grp = any (λ p. not (same_role p.0 smu_name) && is_on r p.1) (roles grp)

-- Some enabled group among `own` depends on the resource.
abbrev pub needs : Name → List Name → Groups → Bool
needs r own = any λ e. e.1.enabled && (depends_on r e.1 && elem e.0 own)

touches-topology_from :
    (r : Name) (own : List Name) (gs : Groups) (u : Usage)
    → touches r own (topology_from gs u) ≡ (touches r own u || needs r own gs)
unfolding topology_from
touches-topology_from r own [] u = ground arith
touches-topology_from r own ((name, grp) ∷ rest) u = elim (Bool-cases grp.enabled) [
  | inl e ↦
      rw
        (
          e,
          touches-topology_from r own rest (add_uses name (roles grp) u),
          touches-add_uses r own name (roles grp) u,
        )
        (regroup (touches r own u) (depends_on r grp && elem name own) (needs r own rest))
  | inr e ↦ rw e (touches-topology_from r own rest u)
]
  where
    regroup : (a b c : Bool) → ((a || b) || c) ≡ (a || (b || c))
    regroup a b c = ground arith

-- A worker is recorded as depending on a resource exactly when one of its enabled groups has it as
-- relay matrix, DMM, DAQ or NTC DAQ, by the configuration.
pub elem-with_shared :
    (r : Name) (w : WorkerPlan) (gs : Groups)
    → elem r (with_shared (discover_topology gs) w).shared_dependencies ≡ needs r w.groups gs
unfolding discover_topology
elem-with_shared r w gs =
    elem-shared_of r w.groups (topology_from gs []) [] ∙ touches-topology_from r w.groups gs []
