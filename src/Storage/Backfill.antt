-- ===== src/Storage/Backfill.antt =====
-- scripts/backfill_run_sequence.py: sequence numbers for the rows of `run_summary` that have none, and
-- the counter. A table is the list of its rows in the order of their ids.
pub mod Numbers
pub mod Rows
use nipxi.Prelude.{
  ℕ, suc, ◌+◌, Bool, true, false, Option, none, some, List, [], ◌∷◌, if◌then◌else◌, ◌==◌, ltb,
}

pub record Summary : Type 0 where
  pub id : ℕ
  pub number : Option ℕ

-- The index database: `next_value` of the row of `run_sequence`, if there is one.
pub record IndexDb : Type 0 where
  pub run_summary : List Summary
  pub run_sequence : Option ℕ

-- `WHERE sequence_number IS NULL ORDER BY id ASC`
unfoldable pub pending_ids : List Summary → List ℕ
pending_ids [] = []
pending_ids (row ∷ rows) = elim row.number [
  | none ↦ row.id ∷ pending_ids rows
  | some _ ↦ pending_ids rows
]

abbrev pub larger : ℕ → ℕ → ℕ
larger a b = if ltb a b then b else a

-- `MAX(sequence_number)`, with 0 for NULL
unfoldable pub max_number : List Summary → ℕ
max_number [] = 0
max_number (row ∷ rows) = elim row.number [
  | none ↦ max_number rows
  | some n ↦ larger n (max_number rows)
]

-- `UPDATE run_summary SET sequence_number = ? WHERE id = ?`
unfoldable pub set_number : ℕ → ℕ → List Summary → List Summary
set_number value id [] = []
set_number value id (row ∷ rows) =
    (if row.id == id then record row { number = some value } else row) ∷ set_number value id rows

-- The loop.
unfoldable pub assign_numbers : List ℕ → ℕ → List Summary → List Summary
assign_numbers [] next_value rows = rows
assign_numbers (id ∷ ids) next_value rows =
    assign_numbers ids (suc next_value) (set_number next_value id rows)

-- `INSERT ... ON CONFLICT(id) DO UPDATE`
unfoldable pub seed : ℕ → Option ℕ → Option ℕ
seed value o = elim o [
  | none ↦ some value
  | some current ↦ some (if ltb current value then value else current)
]

-- A dry run writes nothing.
unfoldable pub backfill : Bool → IndexDb → IndexDb
backfill true db = db
backfill false db =
    let rows =
      assign_numbers (pending_ids db.run_summary) (suc (max_number db.run_summary))
        db.run_summary in
    record { run_summary = rows; run_sequence = seed (suc (max_number rows)) db.run_sequence }
