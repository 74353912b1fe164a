-- ===== src/Prelude/Lists.antt =====
-- Lists over the native numbers, sets of names kept as lists, and `any`.
use Prim.Native.Nat.{ℕ, suc, ◌+◌}
use mathlib.Core.Path.{◌≡◌, refl}
use mathlib.Core.Bool.{Bool, true, false, ◌&&◌, ◌||◌}
use mathlib.Core.List.{List, [], ◌∷◌, ◌++◌}
use native.Mathlib.Omega.{arith}
use mathlib.Core.Logic.{inl, inr}
use nipxi.Prelude.Tests.{◌==◌, if◌then◌else◌, Bool-cases}

module _ {ℓ} {A : Type ℓ} where
  abbrev pub length : List A → ℕ
  length [] = 0
  length (x ∷ xs) = suc (length xs)

  -- Python's `any(p(x) for x in xs)`.
  abbrev pub any : (A → Bool) → List A → Bool
  any p [] = false
  any p (x ∷ xs) = p x || any p xs

  -- `[x for x in xs if p(x)]`
  abbrev pub keep : (A → Bool) → List A → List A
  keep p [] = []
  keep p (x ∷ xs) = let rest = keep p xs in if p x then x ∷ rest else rest

  pub any-append : (p : A → Bool) (xs ys : List A) → any p (xs ++ ys) ≡ (any p xs || any p ys)
  any-append p [] ys = refl
  any-append p (x ∷ xs) ys = ground (arith, any-append p xs ys)

-- `x in xs`
abbrev pub elem : ℕ → List ℕ → Bool
elem x [] = false
elem x (y ∷ ys) = (y == x) || elem x ys

-- `xs.add(x)` of a set.
abbrev pub add : ℕ → List ℕ → List ℕ
add x xs = if elem x xs then xs else xs ++ x ∷ []

-- `xs.update(ys)` of a set.
abbrev pub update : List ℕ → List ℕ → List ℕ
update xs [] = xs
update xs (y ∷ ys) = update (add y xs) ys

-- `xs & ys` of two sets.
abbrev pub meet : List ℕ → List ℕ → List ℕ
meet xs ys = keep (λ x. elem x ys) xs

abbrev pub is_empty {ℓ} : {A : Type ℓ} → List A → Bool
is_empty [] = true
is_empty (x ∷ xs) = false

pub elem-append : (x : ℕ) (xs ys : List ℕ) → elem x (xs ++ ys) ≡ (elem x xs || elem x ys)
elem-append x [] ys = refl
elem-append x (y ∷ xs) ys = ground (arith, elem-append x xs ys)

pub elem-add : (x y : ℕ) (xs : List ℕ) → elem x (add y xs) ≡ ((y == x) || elem x xs)
elem-add x y xs = ground (arith, elem-append x xs (y ∷ []))

pub elem-update : (x : ℕ) (xs ys : List ℕ) → elem x (update xs ys) ≡ (elem x xs || elem x ys)
elem-update x xs [] = ground arith
elem-update x xs (y ∷ ys) = ground (arith, elem-update x (add y xs) ys, elem-add x y xs)

pub elem-keep : (x : ℕ) (p : ℕ → Bool) (xs : List ℕ) → elem x (keep p xs) ≡ (elem x xs && p x)
elem-keep x p [] = refl
elem-keep x p (y ∷ xs) = ground (arith, elem-keep x p xs)

-- Each name of the list is listed once.
abbrev pub IsDistinct : List ℕ → Type 0
IsDistinct [] = Unit
IsDistinct (x ∷ xs) = (elem x xs ≡ false) × IsDistinct xs

abbrev pub All {ℓ κ} : {A : Type ℓ} → (A → Type κ) → List A → Type κ
All P [] = Unit
All P (x ∷ xs) = P x × All P xs

pub All-append {ℓ κ} :
    {A : Type ℓ} (P : A → Type κ) (xs ys : List A) → All P xs → All P ys → All P (xs ++ ys)
All-append P [] ys hx hy = hy
All-append P (x ∷ xs) ys hx hy = (hx.0, All-append P xs ys hx.1 hy)

-- Names in the order in which they are first seen.
abbrev pub first_seen : List ℕ → List ℕ → List ℕ
first_seen seen [] = seen
first_seen seen (x ∷ xs) = first_seen (add x seen) xs

pub IsDistinct-snoc :
    (x : ℕ) (xs : List ℕ) → elem x xs ≡ false → IsDistinct xs → IsDistinct (xs ++ x ∷ [])
IsDistinct-snoc x [] h d = (refl, tt)
IsDistinct-snoc x (y ∷ xs) h d =
    (ground (arith, elem-append y xs (x ∷ [])), IsDistinct-snoc x xs (ground arith) d.1)

pub IsDistinct-add : (x : ℕ) (xs : List ℕ) → IsDistinct xs → IsDistinct (add x xs)
IsDistinct-add x xs d = elim (Bool-cases (elem x xs)) [
  | inl old ↦ rw old d
  | inr new ↦ rw new (IsDistinct-snoc x xs new d)
]

pub IsDistinct-first_seen : (seen xs : List ℕ) → IsDistinct seen → IsDistinct (first_seen seen xs)
IsDistinct-first_seen seen [] d = d
IsDistinct-first_seen seen (x ∷ xs) d =
    IsDistinct-first_seen (add x seen) xs (IsDistinct-add x seen d)

pub elem-first_seen :
    (x : ℕ) (seen xs : List ℕ) → elem x (first_seen seen xs) ≡ (elem x seen || elem x xs)
elem-first_seen x seen [] = ground arith
elem-first_seen x seen (y ∷ xs) =
    ground (arith, elem-first_seen x (add y seen) xs, elem-add x y seen)

abbrev pub count : ℕ → List ℕ → ℕ
count x [] = 0
count x (y ∷ ys) = let rest = count x ys in if y == x then suc rest else rest

abbrev pub flatten {ℓ} : {A : Type ℓ} → List (List A) → List A
flatten [] = []
flatten (xs ∷ xss) = xs ++ flatten xss

pub count-append : (x : ℕ) (xs ys : List ℕ) → count x (xs ++ ys) ≡ count x xs + count x ys
count-append x [] ys = omega arith
count-append x (y ∷ xs) ys = ground (arith, count-append x xs ys)

pub All-left {ℓ κ} : {A : Type ℓ} (P : A → Type κ) (xs ys : List A) → All P (xs ++ ys) → All P xs
All-left P [] ys h = tt
All-left P (x ∷ xs) ys h = (h.0, All-left P xs ys h.1)

pub All-right {ℓ κ} : {A : Type ℓ} (P : A → Type κ) (xs ys : List A) → All P (xs ++ ys) → All P ys
All-right P [] ys h = h
All-right P (x ∷ xs) ys h = All-right P xs ys h.1

pub All-implies {ℓ κ μ} :
    {A : Type ℓ} {P : A → Type κ} {Q : A → Type μ} (xs : List A)
    → ((x : A) → P x → Q x)
    → All P xs
    → All Q xs
All-implies [] f h = tt
All-implies (x ∷ xs) f h = (f x h.0, All-implies xs f h.1)
