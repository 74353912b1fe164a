-- ===== src/Safety/WaitTests.antt =====
-- A wait of 10 that polls every 2 and is interrupted at 5.
use nipxi.Prelude.{ℕ, ◌+◌, ◌≤◌, ◌≡◌, refl, true, some, arith}
use nipxi.Safety.Cancellation.{interruptible_sleep, wait_until, interrupted}
use nipxi.Safety.Cancellation.Waiting.{in_time, interruptible_sleep_lem}

-- Every sleep takes one unit more than asked.
abbrev late : ℕ → ℕ
late t = 1

late_by_one : (t : ℕ) → late t ≤ 1
late_by_one t = omega arith

interrupts : interruptible_sleep 2 late (some 5) 10 0 ≡ interrupted 6
unfolding interruptible_sleep wait_until
interrupts = refl

interruptible_sleep_lem_example :
    in_time 2 1 (some 5) (0 + 10) 0 (interruptible_sleep 2 late (some 5) 10 0) ≡ true
interruptible_sleep_lem_example =
    interruptible_sleep_lem 2 late (some 5) 1 (omega arith) late_by_one 10 0 (omega arith)
