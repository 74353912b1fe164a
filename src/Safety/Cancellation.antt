-- ===== src/Safety/Cancellation.antt =====
-- utils/cancellation.py: the token, and the wait that it interrupts. Times are whole numbers of one
-- unit; a request is the time at which it comes; `oversleep` says by how much a sleep that begins at
-- a time outlasts what was asked, and the statements between two sleeps take no time of their own.
pub mod Waiting
use nipxi.Prelude.{
  ℕ, zero, suc, ◌+◌, ◌-◌, Bool, true, false, Option, none, some, if◌then◌else◌, ◌==◌, ltb, leb,
}
use nipxi.Prelude.Exec.{Result, ok, err}

-- A reason is a number, 0 the empty string.
abbrev pub Text : Type 0
Text = ℕ

abbrev pub default_reason : Text
default_reason = 1

pub record CancellationToken : Type 0 where
  pub requested : Bool
  pub reason : Text
  pub requested_at : Option ℕ

abbrev pub new_token : CancellationToken
new_token = record { requested = false; reason = 0; requested_at = none }

unfoldable pub request_cancel : Text → ℕ → CancellationToken → CancellationToken
request_cancel reason now token =
    if token.requested
    then token
    else record { requested = true; reason = reason; requested_at = some now }

-- `check`: the error is the reason in the OperationCancelledError.
unfoldable pub check_token : CancellationToken → Result Text (Unit {0})
check_token token =
    if token.requested
    then err (if token.reason == 0 then default_reason else token.reason)
    else ok tt

unfoldable pub check_cancellation : Option CancellationToken → Result Text (Unit {0})
check_cancellation none = ok tt
check_cancellation (some token) = check_token token

-- How a wait ends, and when.
pub data Waited : Type 0 where
  slept interrupted : ℕ → Waited
  out_of_fuel : Waited

-- Whether a request has come by now.
abbrev pub has_come : Option ℕ → ℕ → Bool
has_come none now = false
has_come (some at) now = leb at now

abbrev pub shorter : ℕ → ℕ → ℕ
shorter a b = if leb a b then a else b

module _ (poll_interval : ℕ) (oversleep : ℕ → ℕ) (request : Option ℕ) where
  -- The `while` loop.
  unfoldable pub wait_until : ℕ → ℕ → ℕ → Waited
  wait_until zero deadline now = out_of_fuel
  wait_until (suc fuel) deadline now =
      let next = now + shorter poll_interval (deadline - now) + oversleep now in
      let rest = wait_until fuel deadline next in
      if has_come request now then interrupted now else if leb deadline now then slept now else rest

  -- `interruptible_sleep` with a token, from a time; as many rounds as the wait has units, and one.
  unfoldable pub interruptible_sleep : ℕ → ℕ → Waited
  interruptible_sleep duration now =
      if duration == 0 then slept now else wait_until (suc duration) (now + duration) now
