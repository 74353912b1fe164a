-- ===== src/Storage/RunSequence.antt =====
-- data/storage.py: the allocation of sequence numbers and run ids on the index database. What SQLite
-- answers, and where it fails, is a parameter of each attempt.
pub mod Unique
pub mod RunId
use nipxi.Prelude.{
  ℕ, zero, suc, ◌+◌, ◌-◌, ◌*◌, ◌/◌, ◌%◌, Bool, true, false, Option, none, some, List, [], ◌∷◌, ◌++◌,
  if◌then◌else◌, ltb, length, not, ◌==◌, keep,
}
use nipxi.Prelude.Text.{Text}
use nipxi.Prelude.Exec.{Result, ok, err}

-- An sqlite3.OperationalError, another sqlite3.Error, and the RuntimeError of a closed storage.
pub data StorageError : Type 0 where
  operational_error sqlite_error not_open : StorageError

-- Where a transaction fails: at BEGIN IMMEDIATE, at its SELECT or UPDATE, or at COMMIT.
pub data Point : Type 0 where
  at_begin at_statement at_commit : Point

-- What SQLite answers when it fails: the class of the error, and, for a COMMIT, whether the
-- transaction is left open; SQLite may have rolled it back by itself.
pub record Failure : Type 0 where
  pub point : Point
  pub is_operational : Bool
  pub leaves_open : Bool

-- `none` is an attempt that nothing disturbs.
abbrev pub Trouble : Type 0
Trouble = Option Failure

-- A transaction of a connection, with the counter that it has read.
pub record Transaction : Type 0 where
  pub connection : ℕ
  pub value : ℕ

-- The committed counter, and the transactions that are open, on whichever connection.
pub record IndexDatabase : Type 0 where
  pub next_value : ℕ
  pub transactions : List Transaction

abbrev pub error_of : Bool → StorageError
error_of true = operational_error
error_of false = sqlite_error

abbrev pub without : ℕ → List Transaction → List Transaction
without c ts = keep (λ t. not (t.connection == c)) ts

-- BEGIN IMMEDIATE and SELECT.
unfoldable pub begin_transaction : ℕ → IndexDatabase → IndexDatabase
begin_transaction c db = record db {
  transactions = record { connection = c; value = db.next_value } ∷ db.transactions;
}

-- COMMIT of a transaction that has read `value` and counted up.
unfoldable pub commit_transaction : ℕ → ℕ → IndexDatabase → IndexDatabase
commit_transaction c value db = record {
  next_value = value + 1;
  transactions = without c db.transactions;
}

unfoldable pub roll_back : ℕ → IndexDatabase → IndexDatabase
roll_back c db = record db { transactions = without c db.transactions }

-- What follows BEGIN in the body of the loop: a statement that fails is rolled back.
unfoldable pub end_transaction :
    ℕ → ℕ → Trouble → IndexDatabase → Result StorageError ℕ × IndexDatabase
end_transaction c value none db = (ok value, commit_transaction c value db)
end_transaction c value (some f) db =
    let db' : IndexDatabase = elim f.point [
      | at_commit ↦ if f.leaves_open then db else roll_back c db
      | at_begin ↦ roll_back c db
      | at_statement ↦ roll_back c db
    ] in
    (err (error_of f.is_operational), db')

-- The body of the loop, on the connection `c`.
unfoldable pub attempt_allocation :
    ℕ → Trouble → IndexDatabase → Result StorageError ℕ × IndexDatabase
attempt_allocation c none db = end_transaction c db.next_value none (begin_transaction c db)
attempt_allocation c (some f) db = elim f.point [
  | at_begin ↦ (err (error_of f.is_operational), db)
  | at_statement ↦ end_transaction c db.next_value (some f) (begin_transaction c db)
  | at_commit ↦ end_transaction c db.next_value (some f) (begin_transaction c db)
]

-- _SEQUENCE_ALLOCATION_MAX_RETRIES
abbrev pub max_retries : ℕ
max_retries = 5

-- The loop with `n` attempts left, each with its trouble; an operational error of the last is raised.
unfoldable pub allocate_loop :
    ℕ → ℕ → (ℕ → Trouble) → IndexDatabase → Result StorageError ℕ × IndexDatabase
allocate_loop c zero troubles db = (err operational_error, db)
allocate_loop c (suc n) troubles db =
    let (r, db') = attempt_allocation c (troubles n) db in
    let rest = allocate_loop c n troubles db' in
    elim r [
      | ok value ↦ (ok value, db')
      | err operational_error ↦ elim n [ zero ↦ (err operational_error, db') | suc _ ↦ rest ]
      | err e ↦ (err e, db')
    ]

unfoldable pub allocate_sequence_number :
    ℕ → (ℕ → Trouble) → Option IndexDatabase → Result StorageError ℕ × Option IndexDatabase
allocate_sequence_number c troubles o = elim o [
  | none ↦ (err not_open, none)
  | some db ↦ let (r, db') = allocate_loop c max_retries troubles db in (r, some db')
]

-- `{n:08d}`: decimal digits, with zeros in front up to eight.
abbrev pub digit : ℕ → ℕ
digit d = 48 + d

unfoldable pub decimal : ℕ → ℕ → Text
decimal zero n = []
decimal (suc fuel) n =
    let rest = decimal fuel (n / 10) in
    if ltb n 10 then digit n ∷ [] else rest ++ digit (n % 10) ∷ []

unfoldable pub zeros : ℕ → Text
zeros zero = []
zeros (suc n) = digit 0 ∷ zeros n

unfoldable pub padded : ℕ → Text
padded n = let digits = decimal (suc n) n in zeros (8 - length digits) ++ digits

-- `{station_id}-{sequence_number:08d}`
unfoldable pub run_id_of : Text → ℕ → Text
run_id_of station_id n = station_id ++ 45 ∷ padded n

-- The storage's own fields that `begin_new_run_id` assigns.
pub record RunIds : Type 0 where
  pub index : Option IndexDatabase
  pub sequence_number : Option ℕ
  pub run_id : Option Text

unfoldable pub begin_new_run_id :
    Text → ℕ → (ℕ → Trouble) → RunIds → Result StorageError Text × RunIds
begin_new_run_id station_id c troubles s =
    let (r, index) = allocate_sequence_number c troubles s.index in
    elim r [
      | err e ↦ (err e, record s { index = index })
      | ok n ↦ (
        ok (run_id_of station_id n),
        record { index = index; sequence_number = some n; run_id = some (run_id_of station_id n) },
      )
    ]
