-- ===== src/Orchestration/ExecutionPlan/Batches.antt =====
-- The greedy assignment to batches, for any symmetric test of conflict.
use nipxi.Prelude.{
  ◌+◌, ◌≡◌, refl, true, false, List, [], ◌∷◌, ◌++◌, arith, any, any-append, All, All-append,
  All-left, All-right, All-implies, count, count-append, flatten, Bool-cases, inl, inr,
}
use nipxi.Orchestration.Workers.{Name}
use nipxi.Orchestration.ExecutionPlan.{Test, place, assign_batches}

-- No two members of the batch conflict.
abbrev pub IsIndependent : Test → List Name → Type 0
IsIndependent conflicting [] = Unit
IsIndependent conflicting (x ∷ xs) = (any (conflicting x) xs ≡ false) × IsIndependent conflicting xs

-- Each member of a later batch conflicts with a member of every batch before it.
abbrev pub IsTight : Test → List (List Name) → Type 0
IsTight conflicting [] = Unit
IsTight conflicting (b ∷ bs) =
    All (λ x. any (conflicting x) b ≡ true) (flatten bs) × IsTight conflicting bs

count-place :
    (c : Test) (x y : Name) (bs : List (List Name))
    → count x (flatten (place c y bs)) ≡ count x (flatten bs) + count x (y ∷ [])
unfolding place
count-place c x y [] = ground arith
count-place c x y (b ∷ bs) = elim (Bool-cases (any (c y) b)) [
  | inl e ↦ rw e (
      omega (
        arith,
        count-place c x y bs,
        count-append x b (flatten (place c y bs)),
        count-append x b (flatten bs),
      ))
  | inr e ↦ rw e (
      omega (
        arith,
        count-append x (b ++ y ∷ []) (flatten bs),
        count-append x b (y ∷ []),
        count-append x b (flatten bs),
      ))
]

-- Every name is put in as many batches as it is listed: no worker is lost or doubled.
pub count-assign_batches :
    (c : Test) (x : Name) (ws : List Name) (bs : List (List Name))
    → count x (flatten (assign_batches c ws bs)) ≡ count x (flatten bs) + count x ws
unfolding assign_batches
count-assign_batches c x [] bs = omega arith
count-assign_batches c x (w ∷ ws) bs =
    rw (count-assign_batches c x ws (place c w bs), count-place c x w bs) (ground arith)

module _ (c : Test) (symmetric : (x y : Name) → c x y ≡ c y x) where
  IsIndependent-snoc :
      (x : Name) (b : List Name)
      → any (c x) b ≡ false
      → IsIndependent c b
      → IsIndependent c (b ++ x ∷ [])
  IsIndependent-snoc x [] h i = (refl, tt)
  IsIndependent-snoc x (y ∷ b) h i = (
    ground (arith, any-append (c y) b (x ∷ []), symmetric x y),
    IsIndependent-snoc x b (ground arith) i.1,
  )

  place-IsIndependent :
      (x : Name) (bs : List (List Name))
      → All (IsIndependent c) bs
      → All (IsIndependent c) (place c x bs)
  unfolding place
  place-IsIndependent x [] h = ((refl, tt), tt)
  place-IsIndependent x (b ∷ bs) h = elim (Bool-cases (any (c x) b)) [
    | inl e ↦ rw e (h.0, place-IsIndependent x bs h.1)
    | inr e ↦ rw e (IsIndependent-snoc x b e h.0, h.1)
  ]

  pub assign_batches-IsIndependent :
      (ws : List Name) (bs : List (List Name))
      → All (IsIndependent c) bs
      → All (IsIndependent c) (assign_batches c ws bs)
  unfolding assign_batches
  assign_batches-IsIndependent [] bs h = h
  assign_batches-IsIndependent (w ∷ ws) bs h =
      assign_batches-IsIndependent ws (place c w bs) (place-IsIndependent w bs h)

All-place :
    (c : Test) (P : Name → Type 0) (x : Name) (bs : List (List Name))
    → P x
    → All P (flatten bs)
    → All P (flatten (place c x bs))
unfolding place
All-place c P x [] p h = (p, tt)
All-place c P x (b ∷ bs) p h =
    let front = All-left P b (flatten bs) h in
    let back = All-right P b (flatten bs) h in
    elim (Bool-cases (any (c x) b)) [
      | inl e ↦ rw e (All-append P b (flatten (place c x bs)) front (All-place c P x bs p back))
      | inr e ↦
          rw e
            (All-append P (b ++ x ∷ []) (flatten bs) (All-append P b (x ∷ []) front (p, tt)) back)
    ]

place-IsTight :
    (c : Test) (x : Name) (bs : List (List Name)) → IsTight c bs → IsTight c (place c x bs)
unfolding place
place-IsTight c x [] h = (tt, tt)
place-IsTight c x (b ∷ bs) h = elim (Bool-cases (any (c x) b)) [
  | inl e ↦ rw e (All-place c (λ y. any (c y) b ≡ true) x bs e h.0, place-IsTight c x bs h.1)
  | inr e ↦
      rw e (All-implies (flatten bs) (λ y p. ground (arith, any-append (c y) b (x ∷ []))) h.0, h.1)
]

pub assign_batches-IsTight :
    (c : Test) (ws : List Name) (bs : List (List Name))
    → IsTight c bs
    → IsTight c (assign_batches c ws bs)
unfolding assign_batches
assign_batches-IsTight c [] bs h = h
assign_batches-IsTight c (w ∷ ws) bs h =
    assign_batches-IsTight c ws (place c w bs) (place-IsTight c w bs h)
