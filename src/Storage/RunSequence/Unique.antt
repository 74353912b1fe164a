-- ===== src/Storage/RunSequence/Unique.antt =====
-- data/storage.py: no sequence number is handed out twice, and when an allocation succeeds.
use nipxi.Prelude.{
  ℕ, zero, suc, ◌≤◌, ◌≡◌, refl, Bool, true, false, not, ◌&&◌, ◌||◌, ◌==◌, Option, none, some, List,
  [], ◌∷◌, leb, if◌then◌else◌, arith,
}
use nipxi.Prelude.Exec.{Result, ok, err}
use nipxi.Storage.RunSequence.{
  StorageError, operational_error, at_begin, at_statement, at_commit, Trouble, Transaction,
  IndexDatabase, begin_transaction, commit_transaction, roll_back, end_transaction,
  attempt_allocation, allocate_loop, allocate_sequence_number, max_retries,
}

-- One step of a connection: its BEGIN IMMEDIATE and what it reads; the rest of its attempt, with its
-- trouble; or a commit of another method on it, which also commits what is left open.
pub data Step : Type 0 where
  begin_step : ℕ → Step
  end_step : ℕ → Trouble → Step
  commit_step : ℕ → Step

abbrev read_by : ℕ → List Transaction → Option ℕ
read_by c [] = none
read_by c (t ∷ ts) = if t.connection == c then some t.value else read_by c ts

abbrev value_of : Result StorageError ℕ → Option ℕ
value_of (ok value) = some value
value_of (err _) = none

-- A step, where `grants` says whether SQLite lets a connection begin: the number that the
-- connection hands out, and the database. A step of a connection without a transaction does nothing.
unfoldable pub take_step :
    (ℕ → IndexDatabase → Bool) → Step → IndexDatabase → Option ℕ × IndexDatabase
take_step grants (begin_step c) db = (none, if grants c db then begin_transaction c db else db)
take_step grants (end_step c trouble) db = elim (read_by c db.transactions) [
  | none ↦ (none, db)
  | some value ↦ let (r, db') = end_transaction c value trouble db in (value_of r, db')
]
take_step grants (commit_step c) db = elim (read_by c db.transactions) [
  | none ↦ (none, db)
  | some value ↦ (none, commit_transaction c value db)
]

-- The numbers that a schedule of steps hands out, on all connections together.
unfoldable pub allocated : (ℕ → IndexDatabase → Bool) → List Step → IndexDatabase → List ℕ
allocated grants [] db = []
allocated grants (step ∷ steps) db =
    let (handed, db') = take_step grants step db in
    let rest = allocated grants steps db' in elim handed [ some value ↦ value ∷ rest | none ↦ rest ]

-- What SQLite documents: a write transaction begins only when no connection has one.
abbrev pub IsExclusive : (ℕ → IndexDatabase → Bool) → Type 0
IsExclusive grants = (c : ℕ) (db : IndexDatabase) → grants c db ≡ true → db.transactions ≡ []

-- There is at most one transaction, and it has read the counter.
abbrev pub Reads : ℕ → List Transaction → Type 0
Reads n [] = Unit {0}
Reads n (t ∷ []) = t.value ≡ n
Reads n (_ ∷ _ ∷ _) = true ≡ false

-- Each number is above the bound, and above those before it.
abbrev pub increases_from : ℕ → List ℕ → Bool
increases_from bound [] = true
increases_from bound (n ∷ ns) = leb bound n && increases_from (suc n) ns

abbrev database : ℕ → List Transaction → IndexDatabase
database n ts = record { next_value = n; transactions = ts }

-- What a step leaves, from a counter.
abbrev Counted : ℕ → Option ℕ × IndexDatabase → Type 0
Counted n (some value, db) =
    (n ≤ value) × (suc value ≤ db.next_value) × Reads db.next_value db.transactions
Counted n (none, db) = (n ≤ db.next_value) × Reads db.next_value db.transactions

end_step-Counted :
    (grants : ℕ → IndexDatabase → Bool) (c : ℕ) (trouble : Trouble) (n : ℕ) (ts : List Transaction)
    → Reads n ts
    → Counted n (take_step grants (end_step c trouble) (database n ts))
unfolding take_step end_transaction commit_transaction roll_back
end_step-Counted grants c trouble n [] h = ground arith
end_step-Counted grants c none n (t ∷ []) h = ground arith
end_step-Counted grants c (some f) n (t ∷ []) h = ground arith
end_step-Counted grants c trouble n (_ ∷ _ ∷ _) h = ground arith

step-Counted :
    (grants : ℕ → IndexDatabase → Bool)
    → IsExclusive grants
    → (step : Step) (n : ℕ) (ts : List Transaction) → Reads n ts
    → Counted n (take_step grants step (database n ts))
unfolding take_step begin_transaction commit_transaction
step-Counted grants exclusive (begin_step c) n [] h = ground arith
step-Counted grants exclusive (begin_step c) n (t ∷ []) h =
    ground (arith, exclusive c (database n (t ∷ [])))
step-Counted grants exclusive (begin_step c) n (_ ∷ _ ∷ _) h = ground arith
step-Counted grants exclusive (end_step c trouble) n ts h = end_step-Counted grants c trouble n ts h
step-Counted grants exclusive (commit_step c) n [] h = ground arith
step-Counted grants exclusive (commit_step c) n (t ∷ []) h = ground arith
step-Counted grants exclusive (commit_step c) n (_ ∷ _ ∷ _) h = ground arith

weaken : (m n : ℕ) (ns : List ℕ) → m ≤ n → increases_from n ns ≡ true → increases_from m ns ≡ true
weaken m n [] h e = refl
weaken m n (x ∷ ns) h e = ground arith

-- When SQLite begins a write transaction only where no connection has one: however the steps of the
-- connections to the index database interleave, and wherever they fail, the numbers that are handed
-- out on all of them together increase, from the counter on.
pub allocated-increases :
    (grants : ℕ → IndexDatabase → Bool)
    → IsExclusive grants
    → (steps : List Step) (n : ℕ) (ts : List Transaction) → Reads n ts
    → increases_from n (allocated grants steps (database n ts)) ≡ true
unfolding allocated
allocated-increases grants exclusive [] n ts h = refl
allocated-increases grants exclusive (step ∷ steps) n ts h =
    go (take_step grants step (database n ts)) (allocated-increases grants exclusive steps)
      (step-Counted grants exclusive step n ts h)
  where
    go :
        (p : Option ℕ × IndexDatabase)
        → ((m : ℕ) (us : List Transaction)
            → Reads m us
            → increases_from m (allocated grants steps (database m us)) ≡ true)
        → Counted n p
        → let rest = allocated grants steps p.1 in
          increases_from n (elim p.0 [ some value ↦ value ∷ rest | none ↦ rest ]) ≡ true
    go (some value, db) ih c =
        let rest = allocated grants steps db in
        let later = ih db.next_value db.transactions c.2 in
        ground (arith, weaken (suc value) db.next_value rest (omega (arith, c.1)) later)
    go (none, db) ih c =
        weaken n db.next_value _ (omega (arith, c.0)) (ih db.next_value db.transactions c.1)

-- The troubles of attempts that another may follow: an operational error that leaves no transaction.
abbrev pub is_passing : Trouble → Bool
is_passing none = false
is_passing (some f) =
    f.is_operational
    && (elim f.point [ at_commit ↦ not f.leaves_open | at_begin ↦ true | at_statement ↦ true ])

abbrev is_undisturbed : Trouble → Bool
is_undisturbed none = true
is_undisturbed (some _) = false

-- Some attempt is undisturbed, and every one before it meets an error that another may follow.
abbrev pub succeeds_within : ℕ → (ℕ → Trouble) → Bool
succeeds_within zero troubles = false
succeeds_within (suc n) troubles =
    is_undisturbed (troubles n) || (is_passing (troubles n) && succeeds_within n troubles)

undisturbed-returns :
    (c : ℕ) (trouble : Trouble) (n : ℕ)
    → is_undisturbed trouble ≡ true
    → (attempt_allocation c trouble (database n [])).0 ≡ ok n
unfolding attempt_allocation end_transaction
undisturbed-returns c none n h = refl
undisturbed-returns c (some f) n h = ground arith

passing-fails :
    (c : ℕ) (trouble : Trouble) (n : ℕ)
    → is_passing trouble ≡ true
    → attempt_allocation c trouble (database n []) ≡ (err operational_error, database n [])
unfolding attempt_allocation end_transaction begin_transaction roll_back
passing-fails c none n h = ground arith
passing-fails c (some f) n h = ground arith

loop-returns :
    (c k : ℕ) (troubles : ℕ → Trouble) (n : ℕ)
    → succeeds_within k troubles ≡ true
    → (allocate_loop c k troubles (database n [])).0 ≡ ok n
unfolding allocate_loop
loop-returns c zero troubles n h = ground arith
loop-returns c (suc zero) troubles n h = ground (arith, undisturbed-returns c (troubles 0) n)
loop-returns c (suc (suc k)) troubles n h = ground (
  arith,
  undisturbed-returns c (troubles (suc k)) n,
  passing-fails c (troubles (suc k)) n,
  loop-returns c (suc k) troubles n,
)

-- On an open storage, where no transaction is open, the allocation returns the counter when one of
-- its five attempts is undisturbed and every one before it fails by an operational error that leaves no
-- transaction open: before its commit, or at a commit that SQLite rolls back by itself.
pub allocate_sequence_number-returns :
    (c : ℕ) (troubles : ℕ → Trouble) (n : ℕ)
    → succeeds_within 5 troubles ≡ true
    → (allocate_sequence_number c troubles (some (database n []))).0 ≡ ok n
unfolding allocate_sequence_number
allocate_sequence_number-returns c troubles n h = loop-returns c max_retries troubles n h
