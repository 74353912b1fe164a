-- ===== src/Orchestration/Workers/Partition.antt =====
-- What `discover_workers` computes, against a description of each worker by itself.
use nipxi.Prelude.{
  ◌≡◌, refl, sym, ◌∙◌, Bool, true, false, ◌&&◌, Option, none, some, List, [], ◌∷◌, ◌++◌, map, arith,
  Dict, lookup, adjust, or_default, keys, ◌==◌, if◌then◌else◌, nat_eq, first_seen, IsDistinct, elem,
  IsDistinct-first_seen, All, inl, inr, Option-cases, lookup-adjust, ==_iff, append_assoc,
  append-nil, add,
}
use nipxi.Orchestration.Workers.{
  Name, Group, Groups, WorkerPlan, place_group, partition, to_plan, discover_workers,
}

abbrev pub is_on : Name → Option Name → Bool
is_on s none = false
is_on s (some t) = t == s

-- The enabled groups that declare the SMU `s`, in configuration order.
abbrev pub names_on : Name → Groups → List Name
names_on s [] = []
names_on s ((name, grp) ∷ rest) =
    let others = names_on s rest in if grp.enabled && is_on s grp.smu then name ∷ others else others

-- The SMUs of the enabled groups, in configuration order.
abbrev pub smus : Groups → List Name
smus [] = []
smus ((name, grp) ∷ rest) =
    let others = smus rest in
    if grp.enabled then elim grp.smu [ none ↦ others | some s ↦ s ∷ others ] else others

abbrev extend : Option (List Name) → List Name → Option (List Name)
extend o [] = o
extend o (x ∷ xs) = some (or_default [] o ++ x ∷ xs)

lookup-place_group :
    (s name : Name) (grp : Group) (d : Dict Name (List Name))
    → lookup s (place_group name grp d)
      ≡ extend (lookup s d) (if grp.enabled && is_on s grp.smu then name ∷ [] else [])
unfolding place_group
lookup-place_group s name grp d = elim (Option-cases grp.smu) [
  | inl e ↦ ground arith
  | inr (t, e) ↦ rw e (
      ground
        (arith, lookup-adjust t s [] (λ (names : List Name). names ++ name ∷ []) d, ==_iff t s))
]

extend-extend :
    (o : Option (List Name)) (xs ys : List Name) → extend (extend o xs) ys ≡ extend o (xs ++ ys)
extend-extend o [] ys = refl
extend-extend o (x ∷ xs) [] = rw append-nil
extend-extend o (x ∷ xs) (y ∷ ys) = rw append_assoc

names_on-cons :
    (s name : Name) (grp : Group) (rest : Groups)
    → names_on s ((name, grp) ∷ rest)
      ≡ (if grp.enabled && is_on s grp.smu then name ∷ [] else []) ++ names_on s rest
names_on-cons s name grp rest = ground arith

lookup-partition :
    (s : Name) (gs : Groups) (d : Dict Name (List Name))
    → lookup s (partition gs d) ≡ extend (lookup s d) (names_on s gs)
unfolding partition
lookup-partition s [] d = refl
lookup-partition s ((name, grp) ∷ rest) d =
    lookup-partition s rest (place_group name grp d)
    ∙ rw (lookup-place_group s name grp d, names_on-cons s name grp rest)
        (extend-extend (lookup s d) (if grp.enabled && is_on s grp.smu then name ∷ [] else [])
          (names_on s rest))

keys-adjust :
    {V : Type 0} (k : Name) (v : V) (f : V → V) (d : Dict Name V)
    → keys (adjust k v f d) ≡ add k (keys d)
keys-adjust k v f [] = refl
keys-adjust k v f ((j, w) ∷ d) = ground (arith, keys-adjust k v f d)

keys-partition :
    (gs : Groups) (d : Dict Name (List Name))
    → keys (partition gs d) ≡ first_seen (keys d) (smus gs)
unfolding partition place_group
keys-partition [] d = refl
keys-partition ((name, grp) ∷ rest) d = elim (Option-cases grp.smu) [
  | inl e ↦ ground (arith, keys-partition rest d)
  | inr (t, e) ↦ ground (
    arith,
    keys-partition rest d,
    keys-partition rest (adjust t [] (λ (names : List Name). names ++ name ∷ []) d),
    keys-adjust t [] (λ (names : List Name). names ++ name ∷ []) d,
  )
]

elem-keys_of_lookup :
    {V : Type 0} (k : Name) (v : V) (d : Dict Name V) → lookup k d ≡ some v → elem k (keys d) ≡ true
elem-keys_of_lookup k v [] h = cc
elem-keys_of_lookup k v ((j, w) ∷ d) h = ground (arith, elem-keys_of_lookup k v d)

-- What holds of every key with the value that is looked up holds of every entry.
pub All-of_lookup :
    {V : Type 0} (P : Name × V → Type 0) (d : Dict Name V)
    → IsDistinct (keys d)
    → ((k : Name) (v : V) → lookup k d ≡ some v → P (k, v))
    → All P d
All-of_lookup P [] distinct h = tt
All-of_lookup P ((k, v) ∷ d) distinct h = (
  h k v (ground arith),
  All-of_lookup P d distinct.1 λ j w e. h j w (ground (arith, elem-keys_of_lookup j w d e)),
)

-- The worker of an SMU that no other code has filled in yet.
abbrev pub IsWorkerOf : Groups → WorkerPlan → Type 0
IsWorkerOf gs w = (w.groups ≡ names_on w.smu_name gs) × (w.shared_dependencies ≡ [])

extend-none : (s : List Name) (v : List Name) → extend none s ≡ some v → v ≡ s
extend-none [] v h = cc
extend-none (x ∷ xs) v h = cc

All-map :
    {A B : Type 0} (P : B → Type 0) (f : A → B) (xs : List A)
    → All (λ x. P (f x)) xs
    → All P (map f xs)
All-map P f [] h = tt
All-map P f (x ∷ xs) h = (h.0, All-map P f xs h.1)

smu_names-map : (d : Dict Name (List Name)) → map (λ w. w.smu_name) (map to_plan d) ≡ keys d
smu_names-map [] = refl
smu_names-map ((k, v) ∷ d) = rw (smu_names-map d)

-- There is one worker for each SMU that an enabled group declares, in the order in which the
-- SMUs are first declared, and the worker of an SMU runs exactly the enabled groups that declare
-- it, in configuration order, with no shared dependency recorded yet.
pub discover_workers-partitions :
    (gs : Groups)
    → (map (λ w. w.smu_name) (discover_workers gs) ≡ first_seen [] (smus gs))
      × All (IsWorkerOf gs) (discover_workers gs)
unfolding discover_workers
discover_workers-partitions gs = (
  smu_names-map (partition gs []) ∙ keys-partition gs [],
  All-map (IsWorkerOf gs) to_plan (partition gs []) (
      All-of_lookup (λ e. IsWorkerOf gs (to_plan e)) (partition gs [])
        (rw (keys-partition gs []) (IsDistinct-first_seen [] (smus gs) tt))
        λ s v e. (extend-none (names_on s gs) v (sym (lookup-partition s gs []) ∙ e), refl)),
)

-- No two workers have the same SMU.
pub discover_workers-IsDistinct :
    (gs : Groups) → IsDistinct (map (λ w. w.smu_name) (discover_workers gs))
discover_workers-IsDistinct gs =
    rw ((discover_workers-partitions gs).0) (IsDistinct-first_seen [] (smus gs) tt)
