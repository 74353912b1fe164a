-- ===== src/Battery/Diagnostics/Statistics.antt =====
-- test_control/battery_operation_sequence.py: the statistics of a whole run.
use nipxi.Prelude.{
  ℕ, ◌+◌, ◌≡◌, Option, none, some, List, [], ◌∷◌, length, arith, if◌then◌else◌, ltb,
}
use nipxi.Prelude.Int.{ℤ, abs, pos_part}
use nipxi.Battery.Diagnostics.{Stats, new_stats, add_sample}

abbrev pub add_all : List (ℤ × ℤ) → Stats → Stats
add_all [] s = s
add_all ((v, i) ∷ rest) s = add_all rest (add_sample v i s)

-- The size of a sample's current, the sum and the largest of those.
abbrev pub size : ℤ × ℤ → ℕ
size (v, i) = pos_part (abs i)

abbrev pub total : List (ℤ × ℤ) → ℕ
total [] = 0
total (x ∷ xs) = size x + total xs

abbrev pub largest : List (ℤ × ℤ) → ℕ
largest [] = 0
largest (x ∷ xs) = if ltb (largest xs) (size x) then size x else largest xs

abbrev pub first_voltage : List (ℤ × ℤ) → Option ℤ
first_voltage [] = none
first_voltage ((v, i) ∷ rest) = some v

abbrev pub last_voltage : Option ℤ → List (ℤ × ℤ) → Option ℤ
last_voltage before [] = before
last_voltage before ((v, i) ∷ rest) = last_voltage (some v) rest

abbrev max_of : ℕ → ℕ → ℕ
max_of a b = if ltb a b then b else a

add_all_from :
    (xs : List (ℤ × ℤ)) (s : Stats)
    → ((add_all xs s).sample_count ≡ s.sample_count + length xs)
      × ((add_all xs s).current_sum ≡ s.current_sum + total xs)
      × ((add_all xs s).max_current_a ≡ max_of s.max_current_a (largest xs))
      × ((add_all xs s).final_voltage_v ≡ last_voltage s.final_voltage_v xs)
      × ((add_all xs s).initial_voltage_v
          ≡ elim s.initial_voltage_v [ none ↦ first_voltage xs | some v ↦ some v ])
unfolding add_sample
add_all_from [] s = ground arith
add_all_from ((v, i) ∷ xs) s = ground (arith, add_all_from xs (add_sample v i s))

-- After any samples the statistics are their number, the sum and the largest of the sizes of their
-- currents, and the first and the last voltage.
pub add_all_lem :
    (xs : List (ℤ × ℤ))
    → add_all xs new_stats ≡ record {
      initial_voltage_v = first_voltage xs;
      final_voltage_v = last_voltage none xs;
      max_current_a = largest xs;
      current_sum = total xs;
      sample_count = length xs;
    }
add_all_lem xs = ground (arith, add_all_from xs new_stats)
