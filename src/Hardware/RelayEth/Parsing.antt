-- ===== src/Hardware/RelayEth/Parsing.antt =====
-- hardware/relay_eth.py: what the driver reads in a response of the module. Bytes are their codes.
pub mod RoundTrip
use nipxi.Prelude.{
  ℕ, zero, suc, ◌+◌, ◌-◌, ◌*◌, Bool, true, false, ◌&&◌, ◌||◌, Option, none, some, List, [], ◌∷◌,
  map, if◌then◌else◌, leb, ◌==◌,
}

abbrev pub Bytes : Type 0
Bytes = List ℕ

-- `re.split(rb"[>&]", response)[0]`
unfoldable pub before_prompt : Bytes → Bytes
before_prompt [] = []
before_prompt (b ∷ bs) =
    let rest = before_prompt bs in if (b == 62) || (b == 38) then [] else b ∷ rest

-- The white space of `bytes.strip`.
abbrev pub is_space : ℕ → Bool
is_space b = (leb 9 b && leb b 13) || (b == 32)

abbrev pub between : ℕ → ℕ → ℕ → Bool
between low high b = leb low b && leb b high

-- The value of a hexadecimal digit.
abbrev pub hex_value : ℕ → Option ℕ
hex_value b =
    if between 48 57 b
    then some (b - 48)
    else if between 65 70 b
    then some (b - 55)
    else if between 97 102 b
    then some (b - 87)
    else none

abbrev pub reverse_onto : Bytes → Bytes → Bytes
reverse_onto acc [] = acc
reverse_onto acc (b ∷ bs) = reverse_onto (b ∷ acc) bs

abbrev pub drop_spaces : Bytes → Bytes
drop_spaces [] = []
drop_spaces (b ∷ bs) = let rest = drop_spaces bs in if is_space b then rest else b ∷ bs

-- From the end of the text: how many digits follow each other, `n` at most, and their value.
unfoldable pub trailing_digits : ℕ → Bytes → ℕ × ℕ
trailing_digits zero bs = (0, 0)
trailing_digits (suc n) [] = (0, 0)
trailing_digits (suc n) (b ∷ bs) =
    let (count, value) = trailing_digits n bs in
    elim (hex_value b) [ some d ↦ (suc count, d + 16 * value) | none ↦ (0, 0) ]

-- The search for `([0-9A-Fa-f]{2,8})\s*$`: the leftmost match takes the last eight digits at most.
unfoldable pub parse_readall_response : Bytes → Option ℕ
unfolding before_prompt trailing_digits
parse_readall_response response =
    let (count, mask) =
      trailing_digits 8 (drop_spaces (reverse_onto [] (before_prompt response))) in
    if leb 2 count then some mask else none

-- `bytes.lower`
abbrev pub lower : ℕ → ℕ
lower b = if between 65 90 b then b + 32 else b

abbrev pub starts_with : Bytes → Bytes → Bool
starts_with [] bs = true
starts_with (p ∷ ps) [] = false
starts_with (p ∷ ps) (b ∷ bs) = (p == b) && starts_with ps bs

-- `pattern in text`
abbrev pub contains : Bytes → Bytes → Bool
contains pattern [] = starts_with pattern []
contains pattern (b ∷ bs) = starts_with pattern (b ∷ bs) || contains pattern bs

-- "on" is looked for before "off".
unfoldable pub parse_read_response : Bytes → Option Bool
unfolding before_prompt
parse_read_response response =
    let text = map lower (before_prompt response) in
    if contains (111 ∷ 110 ∷ []) text
    then some true
    else if contains (111 ∷ 102 ∷ 102 ∷ []) text
    then some false
    else none

-- `b"invalid" in response.lower()`
abbrev pub is_rejected : Bytes → Bool
is_rejected response = contains (105 ∷ 110 ∷ 118 ∷ 97 ∷ 108 ∷ 105 ∷ 100 ∷ []) (map lower response)
