-- ===== src/Orchestration/Concurrent/Shutdown.antt =====
-- `GlobalEmergencyStop.trigger`: every worker is asked to stop, then every worker is waited for.
use nipxi.Prelude.{
  ◌≡◌, refl, ap, ◌∙◌, Bool, false, Option, none, some, List, [], ◌∷◌, ◌++◌, append-nil,
  if◌then◌else◌, Dict, insert, lookup, nat_eq, lookup-insert, elem, IsDistinct, arith, ◌==◌, ==_iff,
}
use nipxi.Orchestration.Workers.{Name}

-- What the calls on one worker do: `request_stop` may raise, and the thread may outlive
-- `join(timeout=join_timeout)`.
pub record StopTarget : Type 0 where
  pub group_id : Name
  pub request_stop_raises : Bool
  pub outlives_join : Bool

pub data Verdict : Type 0 where
  stopped : Verdict
  unverified_safe : Verdict

-- The calls that `trigger` makes.
pub data Event : Type 0 where
  request_stop : Name → Event
  log_critical : Name → Event
  join : Name → Event

-- The first loop, with its `except`.
unfoldable pub request_stops : List StopTarget → List Event
request_stops [] = []
request_stops (w ∷ ws) =
    request_stop w.group_id ∷ (if w.request_stop_raises then log_critical w.group_id ∷ [] else [])
    ++ request_stops ws

-- The second loop.
unfoldable pub await_all : List StopTarget → Dict Name Verdict → List Event × Dict Name Verdict
await_all [] results = ([], results)
await_all (w ∷ ws) results =
    let (events, results') =
      await_all ws
        (insert w.group_id (if w.outlives_join then unverified_safe else stopped) results) in
    (
      join w.group_id ∷ (if w.outlives_join then log_critical w.group_id ∷ [] else []) ++ events,
      results',
    )

unfoldable pub trigger : List StopTarget → List Event × Dict Name Verdict
unfolding request_stops await_all
trigger workers =
    let (events, results) = await_all workers [] in (request_stops workers ++ events, results)

-- The verdict that the worker of this group deserves.
abbrev pub verdict_of : Name → List StopTarget → Option Verdict
verdict_of g [] = none
verdict_of g (w ∷ ws) =
    let later = verdict_of g ws in
    if w.group_id == g then some (if w.outlives_join then unverified_safe else stopped) else later

abbrev pub ids : List StopTarget → List Name
ids [] = []
ids (w ∷ ws) = w.group_id ∷ ids ws

abbrev or_else : Option Verdict → Option Verdict → Option Verdict
or_else none b = b
or_else (some a) b = some a

verdict_of_absent :
    (g : Name) (ws : List StopTarget) → elem g (ids ws) ≡ false → verdict_of g ws ≡ none
verdict_of_absent g [] h = refl
verdict_of_absent g (w ∷ ws) h = ground (arith, verdict_of_absent g ws)

lookup-await_all :
    (g : Name) (ws : List StopTarget) (results : Dict Name Verdict)
    → IsDistinct (ids ws)
    → lookup g (await_all ws results).1 ≡ or_else (verdict_of g ws) (lookup g results)
unfolding await_all
lookup-await_all g [] results d = refl
lookup-await_all g (w ∷ ws) results d = ground (
  arith,
  lookup-await_all g ws
      (insert w.group_id (if w.outlives_join then unverified_safe else stopped) results) d.1,
  lookup-insert w.group_id g (if w.outlives_join then unverified_safe else stopped) results,
  verdict_of_absent g ws,
  ==_iff w.group_id g,
)

-- The workers asked to stop, in the order of the calls.
abbrev pub requested : List Event → List Name
requested [] = []
requested (request_stop g ∷ es) = g ∷ requested es
requested (log_critical g ∷ es) = requested es
requested (join g ∷ es) = requested es

requested-append : (xs ys : List Event) → requested (xs ++ ys) ≡ requested xs ++ requested ys
requested-append [] ys = refl
requested-append (request_stop g ∷ xs) ys = ap (λ l. g ∷ l) (requested-append xs ys)
requested-append (log_critical g ∷ xs) ys = requested-append xs ys
requested-append (join g ∷ xs) ys = requested-append xs ys

requested-request_stops : (ws : List StopTarget) → requested (request_stops ws) ≡ ids ws
unfolding request_stops
requested-request_stops [] = refl
requested-request_stops (w ∷ ws) = ground (arith, requested-request_stops ws)

requested-await_all :
    (ws : List StopTarget) (results : Dict Name Verdict) → requested (await_all ws results).0 ≡ []
unfolding await_all
requested-await_all [] results = refl
requested-await_all (w ∷ ws) results = ground (
  arith,
  requested-await_all ws
      (insert w.group_id (if w.outlives_join then unverified_safe else stopped) results),
)

-- Every worker is asked to stop exactly once, also when an earlier request raises; and the result says `unverified_safe` of exactly the workers that outlive
-- their join, `stopped` of the others, and nothing of anybody else.
pub trigger_lem :
    (g : Name) (ws : List StopTarget)
    → IsDistinct (ids ws)
    → (requested (trigger ws).0 ≡ ids ws) × (lookup g (trigger ws).1 ≡ verdict_of g ws)
unfolding trigger
trigger_lem g ws d = (
  requested-append (request_stops ws) (await_all ws []).0
      ∙ rw (requested-request_stops ws, requested-await_all ws []) (append_nil (ids ws)),
  lookup-await_all g ws [] d ∙ or_none (verdict_of g ws),
)
  where
    append_nil : (l : List Name) → l ++ [] ≡ l
    append_nil l = rw append-nil

    or_none : (v : Option Verdict) → or_else v none ≡ v
    or_none none = refl
    or_none (some v) = refl
