-- ===== src/Station/DeviceValidator.antt =====
-- utils/device_validator.py: the checks of config/devices.py at startup. Whether a relay type is
-- registered and a driver can be constructed are fields of a device; a name, a resource or an address
-- is a number, 0 the empty one.
pub mod Valid
use nipxi.Prelude.{
  ℕ, zero, suc, Bool, true, false, not, ◌&&◌, Option, none, some, List, [], ◌∷◌, ◌++◌, elem, any,
  is_empty, if◌then◌else◌, ◌==◌, leb,
}
use nipxi.Orchestration.Workers.{Name}

pub data Kind : Type 0 where
  smu dmm daq relay_ethernet relay_serial : Kind

pub data Field : Type 0 where
  resource_field ip_field port_field channel_count_field : Field

-- An entry of the registry.
pub record DeviceEntry : Type 0 where
  pub kind : Kind
  pub name : Name
  pub resource : Option Name
  pub ip : Option Name
  pub port : Option Name
  pub channel_count : Option ℕ
  pub num_channels : Option ℕ
  pub is_registered : Bool
  pub is_instantiable : Bool

-- `positions` of one group, with the relay address of each unless it is missing.
pub record GroupEntry : Type 0 where
  pub group : Name
  pub relay_matrix : Option Name
  pub positions : List (ℕ × Option ℕ)

pub data Problem : Type 0 where
  missing_field : Name → Field → Problem
  unregistered_type not_instantiable duplicate_name duplicate_resource : Name → Problem
  duplicate_ip duplicate_com_port count_mismatch count_drift : Name → Problem
  missing_address duplicate_address : Name → ℕ → Problem
  out_of_range : Name → Name → ℕ → Problem

-- The five tables in the order of `_build_registry`, the USB DAQs, which it leaves out, and the groups.
pub record DevCfg : Type 0 where
  pub smus : List DeviceEntry
  pub dmms : List DeviceEntry
  pub daqs : List DeviceEntry
  pub matrices : List DeviceEntry
  pub serials : List DeviceEntry
  pub usb_daqs : List DeviceEntry
  pub battery_groups : List GroupEntry

abbrev pub build_registry : DevCfg → List DeviceEntry
build_registry dev = dev.smus ++ dev.dmms ++ dev.daqs ++ dev.matrices ++ dev.serials

-- A value that Python takes for true.
abbrev pub is_given : Option ℕ → Bool
is_given none = false
is_given (some zero) = false
is_given (some (suc n)) = true

abbrev pub require : Name → Field → Option ℕ → List Problem
require name field value = if is_given value then [] else missing_field name field ∷ []

unfoldable pub check_required_fields : DeviceEntry → List Problem
check_required_fields e = elim e.kind [
  | smu ↦ require e.name resource_field e.resource
  | dmm ↦ require e.name resource_field e.resource
  | daq ↦ require e.name resource_field e.resource
  | relay_ethernet ↦
      require e.name ip_field e.ip
      ++ require e.name port_field e.port
      ++ require e.name channel_count_field e.channel_count
  | relay_serial ↦ require e.name port_field e.port
]

abbrev pub is_relay : Kind → Bool
is_relay relay_ethernet = true
is_relay relay_serial = true
is_relay _ = false

unfoldable pub check_factory_type : DeviceEntry → List Problem
check_factory_type e =
    if is_relay e.kind && not e.is_registered then unregistered_type e.name ∷ [] else []

unfoldable pub check_instantiable : DeviceEntry → List Problem
check_instantiable e = if e.is_instantiable then [] else not_instantiable e.name ∷ []

unfoldable pub check_entries : List DeviceEntry → List Problem
check_entries [] = []
check_entries (e ∷ es) =
    check_required_fields e ++ check_factory_type e ++ check_instantiable e ++ check_entries es

-- The value of an entry that a check compares, if it looks at the entry.
abbrev pub name_key : DeviceEntry → Option Name
name_key e = some e.name

abbrev pub given : Option Name → Option Name
given o = if is_given o then o else none

abbrev pub resource_key : DeviceEntry → Option Name
resource_key e = if is_relay e.kind then none else given e.resource

abbrev pub ip_key : DeviceEntry → Option Name
ip_key e = elim e.kind [ relay_ethernet ↦ given e.ip | _ ↦ none ]

abbrev pub com_port_key : DeviceEntry → Option Name
com_port_key e = elim e.kind [ relay_serial ↦ given e.port | _ ↦ none ]

-- The loop of the four `_check_duplicate_...`, with the values in `seen`.
unfoldable pub check_duplicates :
    (DeviceEntry → Option Name) → (Name → Problem) → List Name → List DeviceEntry → List Problem
check_duplicates key problem seen [] = []
check_duplicates key problem seen (e ∷ es) = elim (key e) [
  | none ↦ check_duplicates key problem seen es
  | some k ↦
      if elem k seen
      then problem e.name ∷ check_duplicates key problem seen es
      else check_duplicates key problem (k ∷ seen) es
]

-- A position that has an address.
pub record Position : Type 0 where
  pub group : Name
  pub position : ℕ
  pub relay_matrix : Option Name
  pub relay_address : ℕ

abbrev pub same_matrix : Option Name → Option Name → Bool
same_matrix none none = true
same_matrix (some a) (some b) = a == b
same_matrix _ _ = false

abbrev pub same_relay : Position → Position → Bool
same_relay p q = same_matrix p.relay_matrix q.relay_matrix && p.relay_address == q.relay_address

-- The positions of one group, and those without an address.
unfoldable pub positions_of : GroupEntry → List (ℕ × Option ℕ) → List Position × List Problem
positions_of grp [] = ([], [])
positions_of grp ((pos, address) ∷ rest) =
    let (ps, problems) = positions_of grp rest in
    elim address [
      | none ↦ (ps, missing_address grp.group pos ∷ problems)
      | some a ↦ (
        record {
          group = grp.group;
          position = pos;
          relay_matrix = grp.relay_matrix;
          relay_address = a;
        }
            ∷ ps,
        problems,
      )
    ]

unfoldable pub all_positions : List GroupEntry → List Position × List Problem
all_positions [] = ([], [])
all_positions (grp ∷ grps) =
    let (ps, problems) = positions_of grp grp.positions in
    let (later, later_problems) = all_positions grps in (ps ++ later, problems ++ later_problems)

-- The duplicates of `_check_relay_identifiers`.
unfoldable pub check_relay_identifiers : List Position → List Position → List Problem
check_relay_identifiers seen [] = []
check_relay_identifiers seen (p ∷ ps) =
    let rest = check_relay_identifiers seen ps in
    if any (same_relay p) seen
    then duplicate_address p.group p.position ∷ rest
    else check_relay_identifiers (p ∷ seen) ps

-- `channel_count or num_channels or RELAY_COUNT`
abbrev pub limit_of : ℕ → DeviceEntry → ℕ
limit_of relay_count e = elim (given e.channel_count) [
  | some n ↦ n
  | none ↦ elim (given e.num_channels) [ some n ↦ n | none ↦ relay_count ]
]

abbrev pub is_in_range : ℕ → ℕ → Bool
is_in_range limit address = leb 1 address && leb address limit

unfoldable pub check_range : Name → ℕ → List Position → List Problem
check_range name limit [] = []
check_range name limit (p ∷ ps) =
    let rest = check_range name limit ps in
    if same_matrix p.relay_matrix (some name) && not (is_in_range limit p.relay_address)
    then out_of_range name p.group p.position ∷ rest
    else rest

abbrev pub check_counts : ℕ → DeviceEntry → List Problem
check_counts relay_count e =
    (if same_matrix e.num_channels e.channel_count then [] else count_mismatch e.name ∷ [])
    ++ (if same_matrix e.channel_count (some relay_count) then [] else count_drift e.name ∷ [])

unfoldable pub check_relay_count_consistency : ℕ → List Position → List DeviceEntry → List Problem
check_relay_count_consistency relay_count ps [] = []
check_relay_count_consistency relay_count ps (e ∷ es) =
    check_counts relay_count e
    ++ (if limit_of relay_count e == 0 then [] else check_range e.name (limit_of relay_count e) ps)
    ++ check_relay_count_consistency relay_count ps es

-- The problems, in another order among those of the positions than the code lists them.
unfoldable pub validate_devices : ℕ → DevCfg → List Problem
validate_devices relay_count dev =
    let registry = build_registry dev in
    let (ps, missing) = all_positions dev.battery_groups in
    check_entries registry
    ++ check_duplicates name_key duplicate_name [] registry
    ++ check_duplicates resource_key duplicate_resource [] registry
    ++ check_duplicates ip_key duplicate_ip [] registry
    ++ check_duplicates com_port_key duplicate_com_port [] registry
    ++ missing
    ++ check_relay_identifiers [] ps
    ++ check_relay_count_consistency relay_count ps dev.matrices
