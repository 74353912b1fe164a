-- ===== src/Storage/Backfill/Numbers.antt =====
-- scripts/backfill_run_sequence.py: afterwards every row has a number of its own, below the counter.
use nipxi.Prelude.{
  ℕ, suc, ◌≤◌, ◌≡◌, ◌∙◌, refl, true, false, Option, none, some, List, [], ◌∷◌, elem, arith,
}
use nipxi.Storage.Backfill.{
  Summary, pending_ids, max_number, set_number, assign_numbers, seed, backfill,
}
use nipxi.Storage.Backfill.Rows.{
  has_id, ids_differ, numbers_differ, numbered_below, number_of, covered, ids_differ-set,
  covered-set, all_below, all_below-max, all_below-set, has_number-above, numbers_differ-set,
  number_of-set,
}

number_of-assign :
    (ids : List ℕ) (value j : ℕ) (rows : List Summary)
    → elem j ids ≡ false
    → number_of j (assign_numbers ids value rows) ≡ number_of j rows
unfolding assign_numbers
number_of-assign [] value j rows h = refl
number_of-assign (i ∷ ids) value j rows h = ground (
  arith,
  number_of-assign ids (suc value) j (set_number value i rows),
  number_of-set value i j rows,
)

elem-pending :
    (j : ℕ) (rows : List Summary) → has_id j rows ≡ false → elem j (pending_ids rows) ≡ false
unfolding pending_ids
elem-pending j [] h = refl
elem-pending j (row ∷ rows) h = ground (arith, elem-pending j rows)

number_of-pending :
    (j n : ℕ) (rows : List Summary)
    → ids_differ rows ≡ true
    → number_of j rows ≡ some n
    → elem j (pending_ids rows) ≡ false
unfolding pending_ids
number_of-pending j n [] hi h = refl
number_of-pending j n (row ∷ rows) hi h =
    ground (arith, number_of-pending j n rows, elem-pending j rows)

covered-weaken :
    (i : ℕ) (ids : List ℕ) (rows : List Summary)
    → covered ids rows ≡ true
    → covered (i ∷ ids) rows ≡ true
covered-weaken i ids [] h = refl
covered-weaken i ids (row ∷ rows) h = ground (arith, covered-weaken i ids rows)

covered-pending : (rows : List Summary) → covered (pending_ids rows) rows ≡ true
unfolding pending_ids
covered-pending [] = refl
covered-pending (row ∷ rows) =
    ground (arith, covered-pending rows, covered-weaken row.id (pending_ids rows) rows)

numbered :
    (bound : ℕ) (rows : List Summary)
    → all_below bound rows ≡ true
    → covered [] rows ≡ true
    → numbered_below bound rows ≡ true
numbered bound [] h c = refl
numbered bound (row ∷ rows) h c = ground (arith, numbered bound rows)

-- What the loop leaves: a bound above every number, and all that was given.
abbrev IsComplete : List Summary → Type 0
IsComplete rows =
    (numbers_differ rows ≡ true) × (numbered_below (suc (max_number rows)) rows ≡ true)

assign-IsComplete :
    (ids : List ℕ) (value : ℕ) (rows : List Summary)
    → ids_differ rows ≡ true
    → all_below value rows ≡ true
    → covered ids rows ≡ true
    → numbers_differ rows ≡ true
    → IsComplete (assign_numbers ids value rows)
unfolding assign_numbers
assign-IsComplete [] value rows hi hb hc hn =
    (hn, numbered (suc (max_number rows)) rows (all_below-max rows) hc)
assign-IsComplete (i ∷ ids) value rows hi hb hc hn =
    assign-IsComplete ids (suc value) (set_number value i rows)
      (ground (arith, ids_differ-set value i rows)) (all_below-set value i rows hb)
      (covered-set value i ids rows hc)
      (numbers_differ-set value i rows hi (has_number-above value rows hb) hn)

-- A number that was there is there still.
abbrev pub IsKept : Option ℕ → Option ℕ → Type 0
IsKept none after = Unit {0}
IsKept (some n) after = after ≡ some n

-- The counter is above the numbers, and not below what it was.
abbrev pub IsBounded : Option ℕ → Option ℕ → List Summary → Type 0
IsBounded before none rows = true ≡ false
IsBounded none (some next_value) rows = numbered_below next_value rows ≡ true
IsBounded (some current) (some next_value) rows =
    (numbered_below next_value rows ≡ true) × (current ≤ next_value)

numbered_below-weaken :
    (m n : ℕ) (rows : List Summary)
    → m ≤ n
    → numbered_below m rows ≡ true
    → numbered_below n rows ≡ true
numbered_below-weaken m n [] h e = refl
numbered_below-weaken m n (row ∷ rows) h e = ground (arith, numbered_below-weaken m n rows)

seed-IsBounded :
    (bound : ℕ) (counter : Option ℕ) (rows : List Summary)
    → numbered_below bound rows ≡ true
    → IsBounded counter (seed bound counter) rows
unfolding seed
seed-IsBounded bound none rows h = h
seed-IsBounded bound (some current) rows h =
    ground (arith, numbered_below-weaken bound current rows)

-- For a table whose ids differ and whose numbers, where there are some, differ: after the backfill
-- every row has a number, no two the same, all below the counter, which is not lowered; and a row that
-- had a number has kept it.
pub backfill-numbers :
    (rows : List Summary) (counter : Option ℕ) (i : ℕ)
    → ids_differ rows ≡ true
    → numbers_differ rows ≡ true
    → let db = backfill false record { run_summary = rows; run_sequence = counter } in
      (numbers_differ db.run_summary ≡ true)
      × IsBounded counter db.run_sequence db.run_summary
      × IsKept (number_of i rows) (number_of i db.run_summary)
unfolding backfill
backfill-numbers rows counter i hi hn =
    let value = suc (max_number rows) in
    let complete =
      assign-IsComplete (pending_ids rows) value rows hi (all_below-max rows) (covered-pending rows)
        hn in
    (complete.0, seed-IsBounded _ counter _ complete.1, kept _ refl)
  where
    kept :
        (o : Option ℕ)
        → number_of i rows ≡ o
        → IsKept o (number_of i (assign_numbers (pending_ids rows) (suc (max_number rows)) rows))
    kept none found = tt
    kept (some n) found =
        number_of-assign (pending_ids rows) (suc (max_number rows)) i rows
          (number_of-pending i n rows hi found)
        ∙ found
