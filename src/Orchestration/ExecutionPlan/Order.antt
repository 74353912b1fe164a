-- ===== src/Orchestration/ExecutionPlan/Order.antt =====
-- The order of the steps, and what a whole plan promises.
use nipxi.Prelude.{
  ◌≡◌, refl, ap, ◌∙◌, Bool, false, List, [], ◌∷◌, ◌++◌, append-nil, append_assoc, arith, any,
  any-append, keep, All, flatten,
}
use nipxi.Orchestration.Workers.{Name}
use nipxi.Orchestration.ExecutionPlan.{Test, ExecutionStep, batch_steps, schedule}
use nipxi.Orchestration.ExecutionPlan.Batches.{IsIndependent}

-- Each step waits for exactly the conflicting workers whose steps stand before it.
abbrev pub IsOrdered : Test → List Name → List ExecutionStep → Type 0
IsOrdered c before [] = Unit
IsOrdered c before (s ∷ rest) =
    (s.depends_on ≡ keep (c s.smu_name) before) × IsOrdered c (before ++ s.smu_name ∷ []) rest

abbrev pub step_names : List ExecutionStep → List Name
step_names [] = []
step_names (s ∷ rest) = s.smu_name ∷ step_names rest

keep-append : (p : Name → Bool) (xs ys : List Name) → keep p (xs ++ ys) ≡ keep p xs ++ keep p ys
keep-append p [] ys = refl
keep-append p (x ∷ xs) ys = ground (arith, keep-append p xs ys)

keep-none : (p : Name → Bool) (xs : List Name) → any p xs ≡ false → keep p xs ≡ []
keep-none p [] h = refl
keep-none p (x ∷ xs) h = ground (arith, keep-none p xs)

step_names-append :
    (xs ys : List ExecutionStep) → step_names (xs ++ ys) ≡ step_names xs ++ step_names ys
step_names-append [] ys = refl
step_names-append (x ∷ xs) ys = ap (λ l. x.smu_name ∷ l) (step_names-append xs ys)

step_names-batch_steps :
    (c : Test) (g : Name → List Name) (scheduled batch : List Name)
    → step_names (batch_steps c g scheduled batch) ≡ batch
unfolding batch_steps
step_names-batch_steps c g scheduled [] = refl
step_names-batch_steps c g scheduled (x ∷ batch) =
    ap (λ l. x ∷ l) (step_names-batch_steps c g scheduled batch)

-- The steps are the batches, one after the other.
pub step_names-schedule :
    (c : Test) (g : Name → List Name) (scheduled : List Name) (bs : List (List Name))
    → step_names (schedule c g scheduled bs) ≡ flatten bs
unfolding schedule
step_names-schedule c g scheduled [] = refl
step_names-schedule c g scheduled (b ∷ bs) =
    step_names-append (batch_steps c g scheduled b) (schedule c g (scheduled ++ b) bs)
    ∙ rw (step_names-batch_steps c g scheduled b, step_names-schedule c g (scheduled ++ b) bs)

module _ (c : Test) (symmetric : (x y : Name) → c x y ≡ c y x) (g : Name → List Name) where
  stay_fresh :
      (x : Name) (seen batch : List Name)
      → All (λ y. any (c y) seen ≡ false) batch
      → any (c x) batch ≡ false
      → All (λ y. any (c y) (seen ++ x ∷ []) ≡ false) batch
  stay_fresh x seen [] h e = tt
  stay_fresh x seen (y ∷ batch) h e = (
    ground (arith, any-append (c y) seen (x ∷ []), symmetric x y),
    stay_fresh x seen batch h.1 (ground arith),
  )

  nothing_before : (batch : List Name) → All (λ y. any (c y) [] ≡ false) batch
  nothing_before [] = tt
  nothing_before (x ∷ batch) = (refl, nothing_before batch)

  -- A batch whose first members `seen` have been scheduled; none of the rest conflicts with them.
  batch_steps-IsOrdered :
      (scheduled seen batch : List Name) (rest : List ExecutionStep)
      → All (λ x. any (c x) seen ≡ false) batch
      → IsIndependent c batch
      → IsOrdered c (scheduled ++ seen ++ batch) rest
      → IsOrdered c (scheduled ++ seen) (batch_steps c g scheduled batch ++ rest)
  unfolding batch_steps
  batch_steps-IsOrdered scheduled seen [] rest fresh i h = rw append-nil at h
  batch_steps-IsOrdered scheduled seen (x ∷ batch) rest fresh i h = (
    rw (keep-append, keep-none (c x) seen fresh.0, append-nil),
    rw append_assoc (
        batch_steps-IsOrdered scheduled (seen ++ x ∷ []) batch rest
          (stay_fresh x seen batch fresh.1 i.0) i.1 (simp append_assoc (simp append_assoc at h))),
  )

  pub schedule-IsOrdered :
      (scheduled : List Name) (bs : List (List Name))
      → All (IsIndependent c) bs
      → IsOrdered c scheduled (schedule c g scheduled bs)
  unfolding schedule
  schedule-IsOrdered scheduled [] h = tt
  schedule-IsOrdered scheduled (b ∷ bs) h = rw append-nil at (
      batch_steps-IsOrdered scheduled [] b (schedule c g (scheduled ++ b) bs) (nothing_before b) h.0
        (rw append-nil (schedule-IsOrdered (scheduled ++ b) bs h.1)))
