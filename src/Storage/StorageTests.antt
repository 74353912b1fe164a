-- ===== src/Storage/StorageTests.antt =====
-- An event with a field, one that is None, and a value with a space in it.
use nipxi.Prelude.{
  true, false, if◌then◌else◌, ℕ, Bool, ◌≡◌, ◌==◌, refl, none, some, List, [], ◌∷◌, arith,
}
use nipxi.Prelude.Exec.{ok}
use nipxi.Storage.RunSequence.{
  Trouble, at_begin, at_commit, IndexDatabase, begin_transaction, commit_transaction,
  end_transaction, allocate_sequence_number, run_id_of, padded, decimal, zeros,
}
use nipxi.Storage.RunSequence.Unique.{
  Step, begin_step, end_step, commit_step, take_step, IsExclusive, allocated, increases_from,
  allocated-increases, allocate_sequence_number-returns,
}
use nipxi.Storage.Backfill.{Summary, backfill}
use nipxi.Storage.Backfill.Rows.{numbers_differ, number_of}
use nipxi.Storage.Backfill.Numbers.{IsBounded, IsKept, backfill-numbers}
use nipxi.Prelude.Text.{Text}
use nipxi.Storage.EventFormat.{Field, space, format_event, parse_event_fields, event_type_field}
use nipxi.Storage.EventFormat.Reading.{IsSpaceTest}
use nipxi.Storage.EventFormat.RoundTrip.{insert_all, present, parse_event_fields-format_event}

-- "RELAY"
abbrev event : Text
event = 82 ∷ 69 ∷ 76 ∷ 65 ∷ 89 ∷ []

-- "device" is "a B", "run" is None.
abbrev fields : List Field
fields =
    (100 ∷ 101 ∷ 118 ∷ 105 ∷ 99 ∷ 101 ∷ [], some (97 ∷ 32 ∷ 66 ∷ []))
    ∷ (114 ∷ 117 ∷ 110 ∷ [], none)
    ∷ []

abbrev blank : ℕ → Bool
blank c = c == space

blank_spaces : IsSpaceTest blank
blank_spaces = record { of_space = refl; of_equals = refl; of_key_char = λ c h. ground arith }

parse_event_fields-format_event_example :
    parse_event_fields blank (format_event event fields)
    ≡ insert_all ((event_type_field, event) ∷ present fields) []
parse_event_fields-format_event_example =
    parse_event_fields-format_event blank blank_spaces event fields (refl, refl)
      ((refl, (refl, refl)), (refl, tt))

-- The first BEGIN finds the database locked, and the second COMMIT a full disk.
abbrev busy : ℕ → Trouble
busy n =
    if n == 4
    then some record { point = at_begin; is_operational = true; leaves_open = false }
    else if n == 3
    then some record { point = at_commit; is_operational = true; leaves_open = false }
    else none

-- A database that lets nobody begin while a transaction is open.
abbrev unlocked : ℕ → IndexDatabase → Bool
unlocked c db = elim db.transactions [ [] ↦ true | _ ∷ _ ↦ false ]

unlocked-IsExclusive : IsExclusive unlocked
unlocked-IsExclusive c db h = ground arith

-- Two connections that allocate at once; the second begins again after the first has committed.
abbrev race : List Step
race =
    begin_step 1
    ∷ begin_step 2
    ∷ end_step 1 none
    ∷ begin_step 2
    ∷ commit_step 1
    ∷ end_step 2 none
    ∷ []

allocated-increases_example :
    increases_from 7 (allocated unlocked race record { next_value = 7; transactions = [] }) ≡ true
allocated-increases_example = allocated-increases unlocked unlocked-IsExclusive race 7 [] tt

hands_out : allocated unlocked race record { next_value = 7; transactions = [] } ≡ 7 ∷ 8 ∷ []
unfolding allocated take_step begin_transaction end_transaction commit_transaction
hands_out = refl

allocate_sequence_number-returns_example :
    (allocate_sequence_number 1 busy (some record { next_value = 7; transactions = [] })).0 ≡ ok 7
allocate_sequence_number-returns_example = allocate_sequence_number-returns 1 busy 7 refl

-- "R-00000042"
run_id : run_id_of (82 ∷ []) 42 ≡ 82 ∷ 45 ∷ 48 ∷ 48 ∷ 48 ∷ 48 ∷ 48 ∷ 48 ∷ 52 ∷ 50 ∷ []
unfolding run_id_of padded decimal zeros
run_id = refl

-- Two rows without a number, around one that has the number 3.
abbrev summaries : List Summary
summaries =
    record { id = 1; number = none }
    ∷ record { id = 2; number = some 3 }
    ∷ record { id = 5; number = none }
    ∷ []

backfill-numbers_example :
    (numbers_differ
        (backfill false record { run_summary = summaries; run_sequence = some 1 }).run_summary
      ≡ true)
    × IsBounded
        (some 1)
        (backfill false record { run_summary = summaries; run_sequence = some 1 }).run_sequence
        (backfill false record { run_summary = summaries; run_sequence = some 1 }).run_summary
    × IsKept (some 3) (
        number_of 2
          (backfill false record { run_summary = summaries; run_sequence = some 1 }).run_summary)
backfill-numbers_example = backfill-numbers summaries (some 1) 2 refl refl
