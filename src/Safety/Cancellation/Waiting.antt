-- ===== src/Safety/Cancellation/Waiting.antt =====
-- utils/cancellation.py: how long a wait lasts, and which reason a token keeps.
use nipxi.Prelude.{
  ℕ, zero, suc, ◌+◌, ◌-◌, ◌≤◌, ◌<◌, ◌≡◌, refl, Bool, true, false, not, ◌&&◌, Option, none, some,
  List, [], ◌∷◌, arith, if◌then◌else◌, ◌==◌, leb,
}
use nipxi.Prelude.Exec.{err}
use nipxi.Safety.Cancellation.{
  Text, default_reason, CancellationToken, new_token, request_cancel, check_token,
  check_cancellation, Waited, slept, interrupted, out_of_fuel, has_come, shorter, wait_until,
  interruptible_sleep,
}

-- The later of two times.
abbrev pub later : ℕ → ℕ → ℕ
later a b = if leb a b then b else a

-- A wait from `now` to `deadline` that ends like this is in time: it is not short, and is over by one
-- oversleep after the deadline; and one that is interrupted ends after the request, and by one poll
-- and one oversleep after the request and the beginning.
abbrev pub in_time : ℕ → ℕ → Option ℕ → ℕ → ℕ → Waited → Bool
in_time poll slack request deadline now (slept t) =
    leb deadline t && leb t (later now (deadline + slack)) && not (has_come request t)
in_time poll slack none deadline now (interrupted t) = false
in_time poll slack (some at) deadline now (interrupted t) =
    leb at t && leb t (later now (at + poll + slack))
in_time poll slack request deadline now out_of_fuel = false

module _ (poll_interval : ℕ) (oversleep : ℕ → ℕ) (request : Option ℕ) (slack : ℕ)
    (polls : 1 ≤ poll_interval) (bounded : (t : ℕ) → oversleep t ≤ slack) where
  wait_until-in_time :
      (fuel deadline now : ℕ)
      → deadline - now < fuel
      → in_time poll_interval slack request deadline now
          (wait_until poll_interval oversleep request fuel deadline now)
        ≡ true
  unfolding wait_until
  wait_until-in_time zero deadline now h = ground arith
  wait_until-in_time (suc fuel) deadline now h =
      let next = now + shorter poll_interval (deadline - now) + oversleep now in
      ground (arith, wait_until-in_time fuel deadline next, bounded now)

  -- When polling takes time and a sleep outlasts what was asked by `slack` at most: a wait of some
  -- length ends; unless it is interrupted it takes that long, ends one oversleep after it at most,
  -- and no request has come by then; and it is interrupted only after a request, at the latest one
  -- poll and one oversleep after that, or at once when the request came before.
  pub interruptible_sleep_lem :
      (duration now : ℕ)
      → 1 ≤ duration
      → in_time poll_interval slack request
          (now + duration)
          now
          (interruptible_sleep poll_interval oversleep request duration now)
        ≡ true
  unfolding interruptible_sleep
  interruptible_sleep_lem duration now h =
      ground (arith, wait_until-in_time (suc duration) (now + duration) now (omega arith))

abbrev pub request_all : List (Text × ℕ) → CancellationToken → CancellationToken
request_all [] token = token
request_all ((reason, now) ∷ rest) token = request_all rest (request_cancel reason now token)

request_all-requested :
    (rs : List (Text × ℕ)) (token : CancellationToken)
    → token.requested ≡ true
    → request_all rs token ≡ token
unfolding request_cancel
request_all-requested [] token h = refl
request_all-requested ((reason, now) ∷ rs) token h = ground (arith, request_all-requested rs token)

-- Of the requests made of a new token the first one sticks, with its time; the next check raises its
-- reason, or the default one for an empty reason.
pub request_all_lem :
    (reason : Text) (now : ℕ) (rs : List (Text × ℕ))
    → let token = request_all ((reason, now) ∷ rs) new_token in
      (token.requested_at ≡ some now)
      × (check_cancellation (some token) ≡ err (if reason == 0 then default_reason else reason))
unfolding check_cancellation check_token request_cancel
request_all_lem reason now rs =
    let first = request_cancel reason now new_token in
    ground (arith, request_all-requested rs first refl)
