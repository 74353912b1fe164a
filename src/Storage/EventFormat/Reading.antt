-- ===== src/Storage/EventFormat/Reading.antt =====
-- utils/event_format.py: the fields of an event are read back as they were given.
use nipxi.Prelude.{
  ℕ, ◌≡◌, refl, Bool, true, false, not, ◌&&◌, ◌||◌, none, some, [], ◌∷◌, ◌++◌, map, ◌==◌, any,
  arith,
}
use nipxi.Prelude.Text.{Text, text_keys}
use nipxi.Storage.EventFormat.{
  is_upper, is_lower, is_digit, underscore, equals, space, is_key_char, upper_char, lower_char,
  Field, part, key_goes_on, starts_key, before_equals, after_equals, trim_end,
}

-- An upper-case key, and a keyword in lower case.
abbrev pub all_key_chars : Text → Bool
all_key_chars [] = true
all_key_chars (c ∷ cs) = is_key_char c && all_key_chars cs

abbrev pub is_key : Text → Bool
is_key [] = false
is_key (c ∷ cs) = is_upper c && all_key_chars cs

abbrev pub all_name_chars : Text → Bool
all_name_chars [] = true
all_name_chars (c ∷ cs) = (is_lower c || is_digit c || c == underscore) && all_name_chars cs

abbrev pub is_name : Text → Bool
is_name [] = false
is_name (c ∷ cs) = is_lower c && all_name_chars cs

module _ (is_space : ℕ → Bool) where
  -- No key and "=" behind a space in the text.
  abbrev pub no_boundary : Text → Bool
  no_boundary [] = true
  no_boundary (c ∷ cs) = not (is_space c && starts_key cs) && no_boundary cs

  -- A value that keeps its end when spaces are stripped, and cannot be taken for several fields.
  abbrev pub IsPlain : Text → Type 0
  IsPlain value = (no_boundary value ≡ true) × (trim_end is_space value ≡ value)

  abbrev pub IsField : Field → Type 0
  IsField (key, none) = is_name key ≡ true
  IsField (key, some value) = (is_name key ≡ true) × IsPlain value

  -- What Python documents of spaces.
  pub record IsSpaceTest : Type 0 where
    pub of_space : is_space space ≡ true
    pub of_equals : is_space equals ≡ false
    pub of_key_char : (c : ℕ) → is_key_char c ≡ true → is_space c ≡ false

key_goes_on-space : (s rest : Text) → key_goes_on (s ++ space ∷ rest) ≡ key_goes_on s
key_goes_on-space [] rest = refl
key_goes_on-space (c ∷ s) rest = rw (key_goes_on-space s rest)

pub starts_key-space : (s rest : Text) → starts_key (s ++ space ∷ rest) ≡ starts_key s
starts_key-space [] rest = refl
starts_key-space (c ∷ s) rest = rw (key_goes_on-space s rest)

key_goes_on-part :
    (k rest : Text) → all_key_chars k ≡ true → key_goes_on (k ++ equals ∷ rest) ≡ true
key_goes_on-part [] rest h = refl
key_goes_on-part (c ∷ k) rest h = ground (arith, key_goes_on-part k rest)

pub starts_key-part : (k rest : Text) → is_key k ≡ true → starts_key (k ++ equals ∷ rest) ≡ true
starts_key-part [] rest h = ground arith
starts_key-part (c ∷ k) rest h = ground (arith, key_goes_on-part k rest)

pub before_equals-part : (k v : Text) → all_key_chars k ≡ true → before_equals (part k v) ≡ k
before_equals-part [] v h = refl
before_equals-part (c ∷ k) v h = ground (arith, before_equals-part k v)

pub after_equals-part : (k v : Text) → all_key_chars k ≡ true → after_equals (part k v) ≡ v
after_equals-part [] v h = refl
after_equals-part (c ∷ k) v h = ground (arith, after_equals-part k v)

pub has_equals : (k v : Text) → any (λ c. c == equals) (part k v) ≡ true
has_equals [] v = refl
has_equals (c ∷ k) v = ground (arith, has_equals k v)

pub is_key-all : (k : Text) → is_key k ≡ true → all_key_chars k ≡ true
is_key-all [] h = refl
is_key-all (c ∷ k) h = ground arith

all_key_chars-upper : (k : Text) → all_name_chars k ≡ true → all_key_chars (map upper_char k) ≡ true
all_key_chars-upper [] h = refl
all_key_chars-upper (c ∷ k) h = ground (arith, all_key_chars-upper k)

pub is_key-upper : (k : Text) → is_name k ≡ true → is_key (map upper_char k) ≡ true
is_key-upper [] h = ground arith
is_key-upper (c ∷ k) h = ground (arith, all_key_chars-upper k)

lower-upper :
    (c : ℕ) → is_lower c || is_digit c || c == underscore ≡ true → lower_char (upper_char c) ≡ c
lower-upper c h = ground arith

all-lower-upper : (k : Text) → all_name_chars k ≡ true → map lower_char (map upper_char k) ≡ k
all-lower-upper [] h = refl
all-lower-upper (c ∷ k) h = ground (arith, lower-upper c, all-lower-upper k)

pub name-lower-upper : (k : Text) → is_name k ≡ true → map lower_char (map upper_char k) ≡ k
name-lower-upper [] h = refl
name-lower-upper (c ∷ k) h = ground (arith, lower-upper c, all-lower-upper k)
