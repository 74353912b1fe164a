-- ===== src/Config/SystemMode.antt =====
-- config/system_mode.py: the modes and their policies. A text is a list of character codes; `upper` is
-- Python's `str.upper`.
use nipxi.Prelude.{Bool, true, false, Option, none, some, [], ◌∷◌, if◌then◌else◌}
use nipxi.Prelude.Exec.{Result, ok, err}
use nipxi.Prelude.Text.{Text, text_eq}

pub data SystemMode : Type 0 where
  development validation production : SystemMode

pub data LogLevel : Type 0 where
  warning_level error_level critical_level : LogLevel

pub record ModePolicy : Type 0 where
  pub strict_hardware : Bool
  pub hardware_failure_log_level : LogLevel
  pub recovery_enabled : Bool
  pub allow_simulated_devices : Bool

unfoldable pub mode_policies : SystemMode → ModePolicy
mode_policies development = record {
  strict_hardware = false;
  hardware_failure_log_level = warning_level;
  recovery_enabled = false;
  allow_simulated_devices = true;
}
mode_policies validation = record {
  strict_hardware = false;
  hardware_failure_log_level = error_level;
  recovery_enabled = false;
  allow_simulated_devices = false;
}
mode_policies production = record {
  strict_hardware = true;
  hardware_failure_log_level = critical_level;
  recovery_enabled = true;
  allow_simulated_devices = false;
}

-- `SystemMode.value`
abbrev pub mode_value : SystemMode → Text
mode_value development = 68 ∷ 69 ∷ 86 ∷ 69 ∷ 76 ∷ 79 ∷ 80 ∷ 77 ∷ 69 ∷ 78 ∷ 84 ∷ []
mode_value validation = 86 ∷ 65 ∷ 76 ∷ 73 ∷ 68 ∷ 65 ∷ 84 ∷ 73 ∷ 79 ∷ 78 ∷ []
mode_value production = 80 ∷ 82 ∷ 79 ∷ 68 ∷ 85 ∷ 67 ∷ 84 ∷ 73 ∷ 79 ∷ 78 ∷ []

-- What stands in the settings: a member of the enumeration, or a text.
pub data ModeSetting : Type 0 where
  member : SystemMode → ModeSetting
  named : Text → ModeSetting

module _ (upper : Text → Text) where
  -- `SystemMode(str(value).upper())`; the error is a ValidationError.
  unfoldable pub mode_named : Text → Result (Unit {0}) SystemMode
  mode_named t =
      if text_eq t (mode_value development)
      then ok development
      else if text_eq t (mode_value validation)
      then ok validation
      else if text_eq t (mode_value production)
      then ok production
      else err tt

  unfoldable pub parse_system_mode : ModeSetting → Result (Unit {0}) SystemMode
  parse_system_mode (member mode) = ok mode
  parse_system_mode (named t) = mode_named (upper t)

  unfoldable pub get_mode_policy : ModeSetting → Result (Unit {0}) ModePolicy
  get_mode_policy setting = elim (parse_system_mode setting) [
    | ok mode ↦ ok (mode_policies mode)
    | err e ↦ err e
  ]

  unfoldable pub is_recovery_enabled : Option Bool → ModeSetting → Result (Unit {0}) Bool
  is_recovery_enabled override setting = elim override [
    | some enabled ↦ ok enabled
    | none ↦ elim (get_mode_policy setting) [
      | ok policy ↦ ok policy.recovery_enabled
      | err e ↦ err e
    ]
  ]
