-- ===== src/Storage/Backfill/Rows.antt =====
-- scripts/backfill_run_sequence.py: the ids and the numbers of the rows, when one row is given a number.
use nipxi.Prelude.{
  ℕ, suc, ◌≤◌, ◌≡◌, refl, Bool, true, false, not, ◌&&◌, ◌||◌, Option, none, some, List, [], ◌∷◌,
  if◌then◌else◌, ◌==◌, ==_iff, ltb, elem, arith,
}
use nipxi.Storage.Backfill.{Summary, max_number, set_number}

abbrev row_of : ℕ → Option ℕ → Summary
row_of i o = record { id = i; number = o }

abbrev pub has_id : ℕ → List Summary → Bool
has_id i [] = false
has_id i (row ∷ rows) = row.id == i || has_id i rows

-- The ids are those of a primary key.
abbrev pub ids_differ : List Summary → Bool
ids_differ [] = true
ids_differ (row ∷ rows) = not (has_id row.id rows) && ids_differ rows

abbrev is_number : ℕ → Option ℕ → Bool
is_number n none = false
is_number n (some m) = m == n

abbrev has_number : ℕ → List Summary → Bool
has_number n [] = false
has_number n (row ∷ rows) = is_number n row.number || has_number n rows

abbrev is_new : Option ℕ → List Summary → Bool
is_new none rows = true
is_new (some n) rows = not (has_number n rows)

-- No number stands in two rows.
abbrev pub numbers_differ : List Summary → Bool
numbers_differ [] = true
numbers_differ (row ∷ rows) = is_new row.number rows && numbers_differ rows

-- Every row has a number, below the bound.
abbrev pub numbered_below : ℕ → List Summary → Bool
numbered_below bound [] = true
numbered_below bound (row ∷ rows) = below row.number && numbered_below bound rows
  where
    below : Option ℕ → Bool
    below none = false
    below (some n) = ltb n bound

-- The number in the row with an id.
abbrev pub number_of : ℕ → List Summary → Option ℕ
number_of i [] = none
number_of i (row ∷ rows) = if row.id == i then row.number else number_of i rows

abbrev is_covered : List ℕ → Summary → Bool
is_covered ids row = elim row.number [ none ↦ elem row.id ids | some _ ↦ true ]

abbrev pub covered : List ℕ → List Summary → Bool
covered ids [] = true
covered ids (row ∷ rows) = is_covered ids row && covered ids rows

has_id-set :
    (value i j : ℕ) (rows : List Summary) → has_id j (set_number value i rows) ≡ has_id j rows
unfolding set_number
has_id-set value i j [] = refl
has_id-set value i j (row ∷ rows) = ground (arith, has_id-set value i j rows)

pub ids_differ-set :
    (value i : ℕ) (rows : List Summary) → ids_differ (set_number value i rows) ≡ ids_differ rows
unfolding set_number
ids_differ-set value i [] = refl
ids_differ-set value i (row ∷ rows) =
    ground (arith, ids_differ-set value i rows, has_id-set value i row.id rows)

set_number-absent :
    (value i : ℕ) (rows : List Summary) → has_id i rows ≡ false → set_number value i rows ≡ rows
unfolding set_number
set_number-absent value i [] h = refl
set_number-absent value i (row ∷ rows) h = ground (arith, set_number-absent value i rows)

has_number-set :
    (value i n : ℕ) (rows : List Summary)
    → (n == value) ≡ false
    → has_number n rows ≡ false
    → has_number n (set_number value i rows) ≡ false
unfolding set_number
has_number-set value i n [] h e = refl
has_number-set value i n (row ∷ rows) h e = ground (arith, has_number-set value i n rows)

pub covered-set :
    (value i : ℕ) (ids : List ℕ) (rows : List Summary)
    → covered (i ∷ ids) rows ≡ true
    → covered ids (set_number value i rows) ≡ true
unfolding set_number
covered-set value i ids [] h = refl
covered-set value i ids (row ∷ rows) h = ground (arith, covered-set value i ids rows)

-- The numbers that there are stand below the bound.
abbrev is_below : ℕ → Option ℕ → Bool
is_below bound none = true
is_below bound (some n) = ltb n bound

abbrev pub all_below : ℕ → List Summary → Bool
all_below bound [] = true
all_below bound (row ∷ rows) = is_below bound row.number && all_below bound rows

all_below-weaken :
    (m n : ℕ) (rows : List Summary) → m ≤ n → all_below m rows ≡ true → all_below n rows ≡ true
all_below-weaken m n [] h e = refl
all_below-weaken m n (row ∷ rows) h e = ground (arith, all_below-weaken m n rows)

pub all_below-max : (rows : List Summary) → all_below (suc (max_number rows)) rows ≡ true
unfolding max_number
all_below-max [] = refl
all_below-max (row ∷ rows) = ground (
  arith,
  all_below-max rows,
  all_below-weaken (suc (max_number rows)) (suc (max_number (row ∷ rows))) rows,
)

pub all_below-set :
    (value i : ℕ) (rows : List Summary)
    → all_below value rows ≡ true
    → all_below (suc value) (set_number value i rows) ≡ true
unfolding set_number
all_below-set value i [] h = refl
all_below-set value i (row ∷ rows) h = ground (arith, all_below-set value i rows)

pub has_number-above :
    (value : ℕ) (rows : List Summary) → all_below value rows ≡ true → has_number value rows ≡ false
has_number-above value [] h = refl
has_number-above value (row ∷ rows) h = ground (arith, has_number-above value rows)

is_new-set :
    (value i : ℕ) (o : Option ℕ) (rows : List Summary)
    → is_number value o ≡ false
    → is_new o rows ≡ true
    → is_new o (set_number value i rows) ≡ true
is_new-set value i none rows h e = refl
is_new-set value i (some n) rows h e = ground (arith, has_number-set value i n rows)

pub numbers_differ-set :
    (value i : ℕ) (rows : List Summary)
    → ids_differ rows ≡ true
    → has_number value rows ≡ false
    → numbers_differ rows ≡ true
    → numbers_differ (set_number value i rows) ≡ true
unfolding set_number
numbers_differ-set value i [] hi hv h = refl
numbers_differ-set value i (row ∷ rows) hi hv h = ground (
  arith,
  ==_iff row.id i,
  set_number-absent value i rows,
  is_new-set value i row.number rows,
  numbers_differ-set value i rows,
)

pub number_of-set :
    (value i j : ℕ) (rows : List Summary)
    → (i == j) ≡ false
    → number_of j (set_number value i rows) ≡ number_of j rows
unfolding set_number
number_of-set value i j [] h = refl
number_of-set value i j (row ∷ rows) h = ground (arith, number_of-set value i j rows)
