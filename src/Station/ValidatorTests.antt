-- ===== src/Station/ValidatorTests.antt =====
-- Two devices, of which the second takes the resource of the first, and a matrix that fits.
use nipxi.Prelude.{◌≡◌, refl, true, false, not, ◌&&◌, none, some, [], ◌∷◌, any, is_empty}
use nipxi.Station.DeviceValidator.{
  smu, dmm, relay_ethernet, DeviceEntry, DevCfg, duplicate_resource, build_registry, all_positions,
  name_key, resource_key, ip_key, com_port_key, validate_devices, check_entries,
  check_required_fields, check_factory_type, check_instantiable, check_duplicates, positions_of,
  check_relay_identifiers, check_range, check_relay_count_consistency,
}
use nipxi.Station.DeviceValidator.Valid.{
  is_usable, values, all_distinct, has_addresses, relays_distinct, fits, is_empty-validate_devices,
}

abbrev first_smu : DeviceEntry
first_smu = record {
  kind = smu;
  name = 1;
  resource = some 41;
  ip = none;
  port = none;
  channel_count = none;
  num_channels = none;
  is_registered = false;
  is_instantiable = true;
}

abbrev matrix : DeviceEntry
matrix = record {
  kind = relay_ethernet;
  name = 22;
  resource = none;
  ip = some 60;
  port = some 23;
  channel_count = some 32;
  num_channels = some 32;
  is_registered = true;
  is_instantiable = true;
}

abbrev dev : DevCfg
dev = record {
  smus = first_smu ∷ [];
  dmms = record first_smu { kind = dmm; name = 2 } ∷ [];
  daqs = [];
  matrices = matrix ∷ [];
  serials = [];
  usb_daqs = [];
  battery_groups =
      record { group = 11; relay_matrix = some 22; positions = (1, some 1) ∷ (2, some 2) ∷ [] }
      ∷ [];
}

one_problem : validate_devices 32 dev ≡ duplicate_resource 2 ∷ []
unfolding validate_devices check_entries check_required_fields check_factory_type check_instantiable
    check_duplicates all_positions positions_of check_relay_identifiers check_range
    check_relay_count_consistency
one_problem = refl

is_empty-validate_devices_example : is_empty (validate_devices 32 dev) ≡ (
    not (any (λ e. not (is_usable e)) (build_registry dev))
    && all_distinct (values name_key (build_registry dev))
    && all_distinct (values resource_key (build_registry dev))
    && all_distinct (values ip_key (build_registry dev))
    && all_distinct (values com_port_key (build_registry dev))
    && has_addresses dev.battery_groups
    && relays_distinct (all_positions dev.battery_groups).0
    && not (any (λ e. not (fits 32 (all_positions dev.battery_groups).0 e)) dev.matrices))
is_empty-validate_devices_example = is_empty-validate_devices 31 dev
