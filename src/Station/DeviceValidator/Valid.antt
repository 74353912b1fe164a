-- ===== src/Station/DeviceValidator/Valid.antt =====
-- utils/device_validator.py: which configurations have no problem.
use nipxi.Prelude.{
  ℕ, suc, ◌≡◌, refl, or_default, Bool, true, false, not, ◌&&◌, ◌||◌, Option, none, some, List, [],
  ◌∷◌, ◌++◌, elem, any, is_empty, if◌then◌else◌, ◌==◌, ==_iff, arith,
}
use nipxi.Orchestration.Workers.{Name}
use nipxi.Station.DeviceValidator.{
  relay_ethernet, relay_serial, DeviceEntry, GroupEntry, Problem, DevCfg, duplicate_name,
  duplicate_resource, duplicate_ip, duplicate_com_port, build_registry, is_given, is_relay,
  check_required_fields, check_factory_type, check_instantiable, check_entries, name_key,
  resource_key, ip_key, com_port_key, check_duplicates, Position, same_matrix, same_relay,
  positions_of, all_positions, check_relay_identifiers, limit_of, is_in_range, check_range,
  check_counts, check_relay_count_consistency, validate_devices,
}

is_empty-append : {A : Type 0} (xs ys : List A) → is_empty (xs ++ ys) ≡ (is_empty xs && is_empty ys)
is_empty-append [] ys = ground arith
is_empty-append (x ∷ xs) ys = ground arith

-- The fields that the driver of a device reads are given, and the driver exists and accepts them.
abbrev pub has_fields : DeviceEntry → Bool
has_fields e = elim e.kind [
  | relay_ethernet ↦ is_given e.ip && is_given e.port && is_given e.channel_count
  | relay_serial ↦ is_given e.port
  | _ ↦ is_given e.resource
]

abbrev pub is_usable : DeviceEntry → Bool
is_usable e = has_fields e && (not (is_relay e.kind) || e.is_registered) && e.is_instantiable

is_empty-check_entries :
    (es : List DeviceEntry) → is_empty (check_entries es) ≡ not (any (λ e. not (is_usable e)) es)
unfolding check_entries check_required_fields check_factory_type check_instantiable
is_empty-check_entries [] = refl
is_empty-check_entries (e ∷ es) = ground (arith, is_empty-check_entries es)

-- The values that a check compares, and whether each stands there once.
abbrev pub values : (DeviceEntry → Option Name) → List DeviceEntry → List Name
values key [] = []
values key (e ∷ es) = let rest = values key es in elim (key e) [ none ↦ rest | some k ↦ k ∷ rest ]

abbrev pub all_distinct : List Name → Bool
all_distinct [] = true
all_distinct (x ∷ xs) = not (elem x xs) && all_distinct xs

abbrev none_seen : List Name → List Name → Bool
none_seen seen xs = not (any (λ x. elem x seen) xs)

none_seen-cons :
    (k : Name) (seen xs : List Name)
    → none_seen (k ∷ seen) xs ≡ (none_seen seen xs && not (elem k xs))
none_seen-cons k seen [] = refl
none_seen-cons k seen (x ∷ xs) = ground (arith, none_seen-cons k seen xs, ==_iff k x, ==_iff x k)

is_empty-check_duplicates :
    (key : DeviceEntry → Option Name) (problem : Name → Problem) (seen : List Name)
    (es : List DeviceEntry)
    → is_empty (check_duplicates key problem seen es)
      ≡ (none_seen seen (values key es) && all_distinct (values key es))
unfolding check_duplicates
is_empty-check_duplicates key problem seen [] = refl
is_empty-check_duplicates key problem seen (e ∷ es) =
    let k = or_default 0 (key e) in
    ground (
      arith,
      is_empty-check_duplicates key problem seen es,
      is_empty-check_duplicates key problem (k ∷ seen) es,
      none_seen-cons k seen (values key es),
    )

is_empty-unseen :
    (key : DeviceEntry → Option Name) (problem : Name → Problem) (es : List DeviceEntry)
    → is_empty (check_duplicates key problem [] es) ≡ all_distinct (values key es)
is_empty-unseen key problem es =
    ground (arith, is_empty-check_duplicates key problem [] es, none_seen-nil (values key es))
  where
    none_seen-nil : (xs : List Name) → none_seen [] xs ≡ true
    none_seen-nil [] = refl
    none_seen-nil (x ∷ xs) = none_seen-nil xs

-- No two positions have the same relay of the same matrix.
abbrev pub relays_distinct : List Position → Bool
relays_distinct [] = true
relays_distinct (p ∷ ps) = not (any (same_relay p) ps) && relays_distinct ps

abbrev none_taken : List Position → List Position → Bool
none_taken seen ps = not (any (λ p. any (same_relay p) seen) ps)

same_relay_comm : (p q : Position) → same_relay p q ≡ same_relay q p
same_relay_comm p q = ground arith

none_taken-cons :
    (p : Position) (seen ps : List Position)
    → none_taken (p ∷ seen) ps ≡ (none_taken seen ps && not (any (same_relay p) ps))
none_taken-cons p seen [] = refl
none_taken-cons p seen (q ∷ ps) = ground (arith, none_taken-cons p seen ps, same_relay_comm p q)

is_empty-check_relay_identifiers :
    (seen ps : List Position)
    → is_empty (check_relay_identifiers seen ps) ≡ (none_taken seen ps && relays_distinct ps)
unfolding check_relay_identifiers
is_empty-check_relay_identifiers seen [] = refl
is_empty-check_relay_identifiers seen (p ∷ ps) =
    ground (arith, is_empty-check_relay_identifiers (p ∷ seen) ps, none_taken-cons p seen ps)

none_taken-nil : (ps : List Position) → none_taken [] ps ≡ true
none_taken-nil [] = refl
none_taken-nil (p ∷ ps) = none_taken-nil ps

-- A relay of this matrix that lies outside the limit.
abbrev pub is_outside : Name → ℕ → Position → Bool
is_outside name limit p =
    same_matrix p.relay_matrix (some name) && not (is_in_range limit p.relay_address)

is_empty-check_range :
    (name : Name) (limit : ℕ) (ps : List Position)
    → is_empty (check_range name limit ps) ≡ not (any (is_outside name limit) ps)
unfolding check_range
is_empty-check_range name limit [] = refl
is_empty-check_range name limit (p ∷ ps) = ground (arith, is_empty-check_range name limit ps)

-- A matrix that declares the number of its channels twice, as it is, and whose positions lie within.
abbrev pub fits : ℕ → List Position → DeviceEntry → Bool
fits relay_count ps e =
    same_matrix e.num_channels (some relay_count)
    && same_matrix e.channel_count (some relay_count)
    && not (any (is_outside e.name relay_count) ps)

limit_of_declared :
    (n : ℕ) (e : DeviceEntry)
    → same_matrix e.channel_count (some (suc n)) ≡ true
    → limit_of (suc n) e ≡ suc n
limit_of_declared n e h = ground arith

is_empty-check_counts :
    (n : ℕ) (e : DeviceEntry)
    → is_empty (check_counts (suc n) e)
      ≡ (same_matrix e.num_channels (some (suc n)) && same_matrix e.channel_count (some (suc n)))
is_empty-check_counts n e = ground arith

abbrev range_problems : ℕ → List Position → DeviceEntry → List Problem
range_problems relay_count ps e =
    if limit_of relay_count e == 0 then [] else check_range e.name (limit_of relay_count e) ps

is_empty-range_problems :
    (n : ℕ) (ps : List Position) (e : DeviceEntry)
    → same_matrix e.channel_count (some (suc n)) ≡ true
    → is_empty (range_problems (suc n) ps e) ≡ not (any (is_outside e.name (suc n)) ps)
is_empty-range_problems n ps e h =
    rw (limit_of_declared n e h) (ground (arith, is_empty-check_range e.name (suc n) ps))

is_empty-check_relay_count_consistency :
    (n : ℕ) (ps : List Position) (es : List DeviceEntry)
    → is_empty (check_relay_count_consistency (suc n) ps es)
      ≡ not (any (λ e. not (fits (suc n) ps e)) es)
unfolding check_relay_count_consistency
is_empty-check_relay_count_consistency n ps [] = refl
is_empty-check_relay_count_consistency n ps (e ∷ es) =
    let later = check_relay_count_consistency (suc n) ps es in
    ground (
      arith,
      is_empty-append (check_counts (suc n) e) (range_problems (suc n) ps e ++ later),
      is_empty-append (range_problems (suc n) ps e) later,
      is_empty-check_counts n e,
      is_empty-check_relay_count_consistency n ps es,
      is_empty-range_problems n ps e,
    )

-- The positions have an address.
abbrev is_missing : Option ℕ → Bool
is_missing none = true
is_missing (some a) = false

abbrev pub has_addresses : List GroupEntry → Bool
has_addresses grps = not (any (λ grp. any (λ p. is_missing p.1) grp.positions) grps)

is_empty-positions_of :
    (grp : GroupEntry) (xs : List (ℕ × Option ℕ))
    → is_empty (positions_of grp xs).1 ≡ not (any (λ p. is_missing p.1) xs)
unfolding positions_of
is_empty-positions_of grp [] = refl
is_empty-positions_of grp ((pos, address) ∷ xs) = ground (arith, is_empty-positions_of grp xs)

is_empty-all_positions :
    (grps : List GroupEntry) → is_empty (all_positions grps).1 ≡ has_addresses grps
unfolding all_positions
is_empty-all_positions [] = refl
is_empty-all_positions (grp ∷ grps) = ground (
  arith,
  is_empty-all_positions grps,
  is_empty-positions_of grp grp.positions,
  is_empty-append (positions_of grp grp.positions).1 (all_positions grps).1,
)

-- For a number of relays above zero: no problem is found exactly when every device of the five tables
-- that the registry is built from, which leaves the USB DAQs out, has the fields it needs, a registered
-- type and a driver that accepts it; the names, the resources, the IP addresses and the COM ports that
-- are given each stand there once; every position has an address, and no two the same relay of the
-- same matrix; and every matrix declares that number of channels twice and has its positions within
-- it.
pub is_empty-validate_devices :
    (n : ℕ) (dev : DevCfg)
    → let registry = build_registry dev in
      let ps = (all_positions dev.battery_groups).0 in
      is_empty (validate_devices (suc n) dev) ≡ (
        not (any (λ e. not (is_usable e)) registry)
        && all_distinct (values name_key registry)
        && all_distinct (values resource_key registry)
        && all_distinct (values ip_key registry)
        && all_distinct (values com_port_key registry)
        && has_addresses dev.battery_groups
        && relays_distinct ps
        && not (any (λ e. not (fits (suc n) ps e)) dev.matrices))
unfolding validate_devices
is_empty-validate_devices n dev =
    let registry = build_registry dev in
    let (ps, missing) = all_positions dev.battery_groups in
    let counts = check_relay_count_consistency (suc n) ps dev.matrices in
    let relays = check_relay_identifiers [] ps in
    let ports = check_duplicates com_port_key duplicate_com_port [] registry in
    let ips = check_duplicates ip_key duplicate_ip [] registry in
    let resources = check_duplicates resource_key duplicate_resource [] registry in
    let names = check_duplicates name_key duplicate_name [] registry in
    ground (
      arith,
      is_empty-append (check_entries registry)
          (names ++ resources ++ ips ++ ports ++ missing ++ relays ++ counts),
      is_empty-append names (resources ++ ips ++ ports ++ missing ++ relays ++ counts),
      is_empty-append resources (ips ++ ports ++ missing ++ relays ++ counts),
      is_empty-append ips (ports ++ missing ++ relays ++ counts),
      is_empty-append ports (missing ++ relays ++ counts),
      is_empty-append missing (relays ++ counts),
      is_empty-append relays counts,
      is_empty-check_entries registry,
      is_empty-unseen name_key duplicate_name registry,
      is_empty-unseen resource_key duplicate_resource registry,
      is_empty-unseen ip_key duplicate_ip registry,
      is_empty-unseen com_port_key duplicate_com_port registry,
      is_empty-all_positions dev.battery_groups,
      is_empty-check_relay_identifiers [] ps,
      none_taken-nil ps,
      is_empty-check_relay_count_consistency n ps dev.matrices,
    )
