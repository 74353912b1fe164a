-- ===== src/Storage/EventFormat.antt =====
-- utils/event_format.py: an event written as one line of KEY=value fields, and read back. A space is
-- what `str.isspace` says, a parameter of the functions that ask for it.
pub mod Reading
pub mod RoundTrip
use nipxi.Prelude.{
  ℕ, ◌+◌, ◌-◌, Bool, true, false, not, ◌&&◌, ◌||◌, Option, none, some, List, [], ◌∷◌, ◌++◌, map,
  Dict, insert, is_empty, if◌then◌else◌, ◌==◌, leb, any,
}
use nipxi.Prelude.Text.{Text, text_eq, text_keys}

abbrev pub is_upper : ℕ → Bool
is_upper c = leb 65 c && leb c 90

abbrev pub is_lower : ℕ → Bool
is_lower c = leb 97 c && leb c 122

abbrev pub is_digit : ℕ → Bool
is_digit c = leb 48 c && leb c 57

abbrev pub underscore : ℕ
underscore = 95

abbrev pub equals : ℕ
equals = 61

abbrev pub space : ℕ
space = 32

-- [A-Z0-9_]
abbrev pub is_key_char : ℕ → Bool
is_key_char c = is_upper c || is_digit c || c == underscore

-- `key.upper()` and `key.lower()` of the letters from a to z, of digits and of underscores.
abbrev pub upper_char : ℕ → ℕ
upper_char c = if is_lower c then c - 32 else c

abbrev pub lower_char : ℕ → ℕ
lower_char c = if is_upper c then c + 32 else c

-- "EVENT_TYPE" and "event_type"
abbrev pub event_type_key : Text
event_type_key = 69 ∷ 86 ∷ 69 ∷ 78 ∷ 84 ∷ 95 ∷ 84 ∷ 89 ∷ 80 ∷ 69 ∷ []

abbrev pub event_type_field : Text
event_type_field = map lower_char event_type_key

-- A keyword argument; its value as `str` gives it, unless it is None.
abbrev pub Field : Type 0
Field = Text × Option Text

abbrev pub part : Text → Text → Text
part key value = key ++ equals ∷ value

-- What follows the first part, each field behind a space.
unfoldable pub format_fields : List Field → Text
format_fields [] = []
format_fields ((key, none) ∷ fields) = format_fields fields
format_fields ((key, some value) ∷ fields) =
    space ∷ part (map upper_char key) value ++ format_fields fields

unfoldable pub format_event : Text → List Field → Text
format_event event_type fields = part event_type_key event_type ++ format_fields fields

-- [A-Z0-9_]*=
abbrev pub key_goes_on : Text → Bool
key_goes_on [] = false
key_goes_on (c ∷ cs) = c == equals || (is_key_char c && key_goes_on cs)

-- [A-Z][A-Z0-9_]*=
abbrev pub starts_key : Text → Bool
starts_key [] = false
starts_key (c ∷ cs) = is_upper c && key_goes_on cs

abbrev pub starts_with : Text → Text → Bool
starts_with [] t = true
starts_with (c ∷ cs) [] = false
starts_with (c ∷ cs) (d ∷ ds) = c == d && starts_with cs ds

abbrev pub cons_head : ℕ → List Text → List Text
cons_head c [] = (c ∷ []) ∷ []
cons_head c (t ∷ ts) = (c ∷ t) ∷ ts

-- `part.partition("=")`: what stands before and after the first one.
abbrev pub before_equals : Text → Text
before_equals [] = []
before_equals (c ∷ cs) = if c == equals then [] else c ∷ before_equals cs

abbrev pub after_equals : Text → Text
after_equals [] = []
after_equals (c ∷ cs) = if c == equals then cs else after_equals cs

module _ (is_space : ℕ → Bool) where
  -- `_FIELD_BOUNDARY.split`: before every space that a key and "=" follow.
  unfoldable pub split_fields : Text → List Text
  split_fields [] = [] ∷ []
  split_fields (c ∷ cs) =
      let rest = cons_head c (split_fields cs) in
      if is_space c && starts_key cs then [] ∷ rest else rest

  abbrev pub trim_start : Text → Text
  trim_start [] = []
  trim_start (c ∷ cs) = if is_space c then trim_start cs else c ∷ cs

  abbrev pub trim_end : Text → Text
  trim_end [] = []
  trim_end (c ∷ cs) = let rest = trim_end cs in if is_empty rest && is_space c then [] else c ∷ rest

  abbrev pub strip : Text → Text
  strip t = trim_end (trim_start t)

  -- One round of the loop.
  unfoldable pub add_part : Text → Dict Text Text → Dict Text Text
  add_part t fields =
      let stripped = strip t in
      if any (λ c. c == equals) stripped
      then insert (map lower_char (before_equals stripped)) (after_equals stripped) fields
      else fields

  unfoldable pub add_parts : List Text → Dict Text Text → Dict Text Text
  add_parts [] fields = fields
  add_parts (t ∷ ts) fields = add_parts ts (add_part t fields)

  unfoldable pub parse_event_fields : Text → Dict Text Text
  parse_event_fields message =
      if starts_with (event_type_key ++ equals ∷ []) message
      then add_parts (split_fields message) []
      else []
