-- ===== src/Orchestration/Ownership/Counting.antt =====
-- orchestration/resource_ownership.py: which loops find no conflict.
use nipxi.Prelude.{
  ◌≡◌, refl, or_default, lookup, Bool, false, not, ◌&&◌, ◌||◌, List, [], ◌∷◌, any, arith, Dict,
  adjust, update, meet, is_empty, if◌then◌else◌, Eq,
}
use nipxi.Orchestration.Workers.{Name}
use nipxi.Orchestration.Topology.{Usage, key_eq}
use nipxi.Orchestration.ResourceGraph.{overlap, Conflicts}
use nipxi.Orchestration.Ownership.{
  matches, add_conflict, name_conflicts, names_conflicts, graph_conflicts, sense_names_conflicts,
  sense_conflicts_of, sense_conflicts, sense_key,
}

is_empty-adjust {ℓ κ} :
    {K : Type ℓ} {V : Type κ} ⦃e : Eq K⦄ (k : K) (d : V) (f : V → V) (m : Dict K V)
    → is_empty (adjust k d f m) ≡ false
is_empty-adjust k d f [] = refl
is_empty-adjust ⦃e⦄ k d f ((j, w) ∷ m) = ground arith

-- Some key of the usage other than an SMU has this name.
abbrev pub is_used : Usage → Name → Bool
is_used usage name = any (matches name) usage

is_empty-name_conflicts :
    (name : Name) (usage conflicts : Usage)
    → is_empty (name_conflicts name usage conflicts)
      ≡ (is_empty conflicts && not (is_used usage name))
unfolding name_conflicts
is_empty-name_conflicts name [] conflicts = ground arith
is_empty-name_conflicts name ((key, names) ∷ rest) conflicts = ground (
  arith,
  is_empty-name_conflicts name rest
      (if matches name (key, names) then add_conflict key names conflicts else conflicts),
  is_empty-adjust key [] (λ (s : List Name). update s names) conflicts,
)

is_empty-names_conflicts :
    (usage : Usage) (names : List Name) (conflicts : Usage)
    → is_empty (names_conflicts usage names conflicts)
      ≡ (is_empty conflicts && not (any (is_used usage) names))
unfolding names_conflicts
is_empty-names_conflicts usage [] conflicts = ground arith
is_empty-names_conflicts usage (name ∷ names) conflicts = ground (
  arith,
  is_empty-names_conflicts usage names (name_conflicts name usage conflicts),
  is_empty-name_conflicts name usage conflicts,
)

pub is_empty-graph_conflicts :
    (usage : Usage) (cs : Conflicts) (conflicts : Usage)
    → is_empty (graph_conflicts usage cs conflicts)
      ≡ (is_empty conflicts && not (any (λ c. any (is_used usage) c.1) cs))
unfolding graph_conflicts
is_empty-graph_conflicts usage [] conflicts = ground arith
is_empty-graph_conflicts usage ((pair, names) ∷ rest) conflicts = ground (
  arith,
  is_empty-graph_conflicts usage rest (names_conflicts usage names conflicts),
  is_empty-names_conflicts usage names conflicts,
)

is_empty-sense_names_conflicts :
    (usage : Usage) (names : List Name) (conflicts : Usage)
    → is_empty (sense_names_conflicts usage names conflicts)
      ≡ (is_empty conflicts && is_empty names)
unfolding sense_names_conflicts
is_empty-sense_names_conflicts usage [] conflicts = ground arith
is_empty-sense_names_conflicts usage (name ∷ names) conflicts =
    let users = or_default [] (lookup (sense_key name) usage) in
    ground (
      arith,
      is_empty-sense_names_conflicts usage names (add_conflict (sense_key name) users conflicts),
      is_empty-adjust (sense_key name) [] (λ (s : List Name). update s users) conflicts,
    )

is_empty-sense_conflicts_of :
    (usage : Usage) (a : List Name) (rest : List (List Name)) (conflicts : Usage)
    → is_empty (sense_conflicts_of usage a rest conflicts)
      ≡ (is_empty conflicts && not (any (overlap a) rest))
unfolding sense_conflicts_of
is_empty-sense_conflicts_of usage a [] conflicts = ground arith
is_empty-sense_conflicts_of usage a (b ∷ rest) conflicts = ground (
  arith,
  is_empty-sense_conflicts_of usage a rest (sense_names_conflicts usage (meet a b) conflicts),
  is_empty-sense_names_conflicts usage (meet a b) conflicts,
)

-- Two of these sets have a name in common.
abbrev pub overlap_somewhere : List (List Name) → Bool
overlap_somewhere [] = false
overlap_somewhere (a ∷ rest) = any (overlap a) rest || overlap_somewhere rest

pub is_empty-sense_conflicts :
    (usage : Usage) (sets : List (List Name)) (conflicts : Usage)
    → is_empty (sense_conflicts usage sets conflicts)
      ≡ (is_empty conflicts && not (overlap_somewhere sets))
unfolding sense_conflicts
is_empty-sense_conflicts usage [] conflicts = ground arith
is_empty-sense_conflicts usage (a ∷ rest) conflicts = ground (
  arith,
  is_empty-sense_conflicts usage rest (sense_conflicts_of usage a rest conflicts),
  is_empty-sense_conflicts_of usage a rest conflicts,
)
