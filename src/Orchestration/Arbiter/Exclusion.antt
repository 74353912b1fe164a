-- ===== src/Orchestration/Arbiter/Exclusion.antt =====
-- Exclusive ownership over any sequence of calls.
use nipxi.Prelude.{
  ◌≡◌, ◌≢◌, refl, Bool, true, false, ◌&&◌, Option, none, some, List, [], ◌∷◌, ◌==◌, if◌then◌else◌,
  lookup, insert, erase, nat_eq, arith, ==_iff, lookup-insert, lookup-erase_ne, Option-cases, inl,
  inr,
}
use nipxi.Prelude.Exec.{ok, err}
use nipxi.Orchestration.Workers.{Name}
use nipxi.Orchestration.Arbiter.{busy, ClaimHandle, Claims, claim, release}

-- A Python dict has no key twice.
abbrev pub IsDict : Claims → Type 0
IsDict [] = Unit
IsDict ((r, o) ∷ m) = (lookup r m ≡ none) × IsDict m

lookup-erase_self : (r : Name) (m : Claims) → IsDict m → lookup r (erase r m) ≡ none
lookup-erase_self r [] h = refl
lookup-erase_self r ((j, o) ∷ m) h = ground (arith, lookup-erase_self r m h.1, ==_iff j r)

insert-IsDict : (r o : Name) (m : Claims) → IsDict m → IsDict (insert r o m)
insert-IsDict r o [] h = (refl, tt)
insert-IsDict r o ((j, p) ∷ m) h =
    ground (arith, insert-IsDict r o m h.1, lookup-insert r j o m, ==_iff j r)

erase-IsDict : (r : Name) (m : Claims) → IsDict m → IsDict (erase r m)
erase-IsDict r [] h = tt
erase-IsDict r ((j, p) ∷ m) h =
    ground (arith, erase-IsDict r m h.1, lookup-erase_ne r j m, ==_iff j r)

-- The owner of a resource, if it has one.
abbrev pub owner_of : Name → Claims → Option Name
owner_of = lookup

pub claim-IsDict : (r o : Name) (m : Claims) → IsDict m → IsDict (claim r o m).1
unfolding claim
claim-IsDict r o m h = ground (arith, insert-IsDict r o m h)

pub release-IsDict : (h : ClaimHandle) (m : Claims) → IsDict m → IsDict (release h m)
unfolding release
release-IsDict h m d = ground (arith, erase-IsDict h.resource_name m d)

-- The resource is free, or is held by the one who asks.
abbrev pub is_open_to : Name → Name → Claims → Bool
is_open_to r o m = elim (owner_of r m) [ none ↦ true | some p ↦ p == o ]

-- A claim of a resource that is free, or that the asker already holds, hands out its handle and makes
-- the asker its owner; no other resource changes hands. A second claim by the owner changes nothing.
pub claim_granted :
    (r o s : Name) (m : Claims)
    → is_open_to r o m ≡ true
    → let (result, m') = claim r o m in
      (result ≡ ok (record { resource_name = r; owner = o }))
      × (owner_of s m' ≡ (if r == s then some o else owner_of s m))
unfolding claim
claim_granted r o s m h = elim (Option-cases (lookup r m)) [
  | inl e ↦ ground (arith, lookup-insert r s o m)
  | inr (p, e) ↦ ground (arith, lookup-insert r s o m)
]

-- A release frees the resource of the handle when the owner of the handle holds it, and is a no-op
-- otherwise; no other resource changes.
pub release_lem :
    (h : ClaimHandle) (s : Name) (m : Claims)
    → IsDict m
    → owner_of s (release h m) ≡ (
        if h.resource_name == s
        then elim (owner_of s m) [ none ↦ none | some p ↦ if p == h.owner then none else some p ]
        else owner_of s m)
unfolding release
release_lem h s m d = ground (
  arith,
  lookup-erase_ne h.resource_name s m,
  lookup-erase_self h.resource_name m d,
  ==_iff h.resource_name s,
)

pub data Call : Type 0 where
  ask : Name → Name → Call
  give_back : ClaimHandle → Call

abbrev pub run_call : Call → Claims → Claims
run_call (ask r o) m = (claim r o m).1
run_call (give_back h) m = release h m

unfoldable pub run_calls : List Call → Claims → Claims
run_calls [] m = m
run_calls (c ∷ cs) m = run_calls cs (run_call c m)

-- The call does not release the resource `r` on behalf of `o`.
abbrev pub Spares : Name → Name → Call → Type 0
Spares r o (ask s p) = Unit
Spares r o (give_back h) = (h.resource_name == r && h.owner == o) ≡ false

abbrev pub AllSpare : Name → Name → List Call → Type 0
AllSpare r o [] = Unit
AllSpare r o (c ∷ cs) = Spares r o c × AllSpare r o cs

run_call-keeps :
    (r o : Name) (c : Call) (m : Claims)
    → owner_of r m ≡ some o
    → Spares r o c
    → owner_of r (run_call c m) ≡ some o
unfolding claim release
run_call-keeps r o (ask s p) m h k = ground (arith, lookup-insert s r p m, ==_iff s r)
run_call-keeps r o (give_back x) m h k =
    ground (arith, lookup-erase_ne x.resource_name r m, ==_iff x.resource_name r)

-- An owner keeps a resource through any calls of any callers that do not release it for that owner;
-- so until then a claim by anybody else is refused.
pub exclusive_until_release :
    (r o p : Name) (cs : List Call) (m : Claims)
    → owner_of r m ≡ some o
    → AllSpare r o cs
    → p ≢ o
    → (owner_of r (run_calls cs m) ≡ some o) × ((claim r p (run_calls cs m)).0 ≡ err (busy r o p))
unfolding run_calls claim
exclusive_until_release r o p [] m h k ne = (h, ground arith)
exclusive_until_release r o p (c ∷ cs) m h k ne =
    exclusive_until_release r o p cs (run_call c m) (run_call-keeps r o c m h k.0) k.1 ne
