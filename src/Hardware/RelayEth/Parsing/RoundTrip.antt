-- ===== src/Hardware/RelayEth/Parsing/RoundTrip.antt =====
-- hardware/relay_eth.py: the parser of "relay readall" on the text of a mask.
use nipxi.Prelude.{
  ℕ, zero, suc, ◌+◌, ◌/◌, ◌%◌, ◌^◌, ◌<◌, ◌≡◌, refl, Bool, false, some, [], ◌∷◌, ◌++◌, any, arith,
  if◌then◌else◌, ltb, ◌==◌, ◌||◌,
}
use nipxi.Hardware.RelayEth.Parsing.{
  Bytes, hex_value, trailing_digits, reverse_onto, drop_spaces, before_prompt,
  parse_readall_response,
}

-- `format(mask, "0nX")`, from its end.
abbrev pub digit_char : ℕ → ℕ
digit_char d = if ltb d 10 then 48 + d else 55 + d

unfoldable pub digits : ℕ → ℕ → Bytes
digits zero mask = []
digits (suc n) mask = digit_char (mask % 16) ∷ digits n (mask / 16)

-- The 32-channel module's text: what comes before, eight digits, a line end and the prompt.
unfoldable pub readall_text : Bytes → ℕ → Bytes
readall_text before mask = before ++ reverse_onto (13 ∷ 10 ∷ 62 ∷ []) (digits 8 mask)

abbrev pub is_prompt : ℕ → Bool
is_prompt b = (b == 62) || (b == 38)

hex_value-digit_char : (d : ℕ) → d < 16 → hex_value (digit_char d) ≡ some d
hex_value-digit_char d h = ground arith

trailing_digits-digits :
    (n mask : ℕ) (rest : Bytes)
    → mask < 16 ^ n
    → trailing_digits n (digits n mask ++ rest) ≡ (n, mask)
unfolding trailing_digits digits
trailing_digits-digits zero mask rest h = ground arith
trailing_digits-digits (suc n) mask rest h =
    ground (arith, hex_value-digit_char (mask % 16), trailing_digits-digits n (mask / 16) rest)

digits-is_prompt : (n mask : ℕ) → any is_prompt (digits n mask) ≡ false
unfolding digits
digits-is_prompt zero mask = refl
digits-is_prompt (suc n) mask = ground (arith, digits-is_prompt n (mask / 16))

before_prompt-append :
    (xs ys : Bytes) → any is_prompt xs ≡ false → before_prompt (xs ++ ys) ≡ xs ++ before_prompt ys
unfolding before_prompt
before_prompt-append [] ys h = refl
before_prompt-append (x ∷ xs) ys h = ground (arith, before_prompt-append xs ys)

before_prompt-reverse_onto :
    (acc xs : Bytes)
    → any is_prompt xs ≡ false
    → before_prompt (reverse_onto acc xs) ≡ reverse_onto (before_prompt acc) xs
unfolding before_prompt
before_prompt-reverse_onto acc [] h = refl
before_prompt-reverse_onto acc (x ∷ xs) h = ground (arith, before_prompt-reverse_onto (x ∷ acc) xs)

reverse_onto-append :
    (acc xs ys : Bytes) → reverse_onto acc (xs ++ ys) ≡ reverse_onto (reverse_onto acc xs) ys
reverse_onto-append acc [] ys = refl
reverse_onto-append acc (x ∷ xs) ys = reverse_onto-append (x ∷ acc) xs ys

reverse_onto-reverse_onto :
    (acc xs ys : Bytes) → reverse_onto acc (reverse_onto ys xs) ≡ reverse_onto (xs ++ acc) ys
reverse_onto-reverse_onto acc [] ys = refl
reverse_onto-reverse_onto acc (x ∷ xs) ys = reverse_onto-reverse_onto acc xs (x ∷ ys)

drop_spaces-digits :
    (n mask : ℕ) (rest : Bytes)
    → drop_spaces (digits (suc n) mask ++ rest) ≡ digits (suc n) mask ++ rest
unfolding digits
drop_spaces-digits n mask rest = ground arith

-- The text from its end, less the line end.
reversed_lem :
    (before : Bytes) (mask : ℕ)
    → any is_prompt before ≡ false
    → drop_spaces (reverse_onto [] (before_prompt (readall_text before mask)))
      ≡ digits 8 mask ++ reverse_onto [] before
unfolding readall_text before_prompt
reversed_lem before mask h =
    rw
      (
        before_prompt-append before (reverse_onto (13 ∷ 10 ∷ 62 ∷ []) (digits 8 mask)) h,
        before_prompt-reverse_onto (13 ∷ 10 ∷ 62 ∷ []) (digits 8 mask) (digits-is_prompt 8 mask),
        reverse_onto-append [] before (reverse_onto (13 ∷ 10 ∷ []) (digits 8 mask)),
        reverse_onto-reverse_onto (reverse_onto [] before) (digits 8 mask) (13 ∷ 10 ∷ []),
      )
      (drop_spaces-digits 7 mask (reverse_onto [] before))

-- The parser reads any mask of 32 bits back from eight hexadecimal digits, a line end and the prompt,
-- whatever text without a prompt comes before them.
pub parse_readall_response-digits :
    (before : Bytes) (mask : ℕ)
    → any is_prompt before ≡ false
    → mask < 16 ^ 8
    → parse_readall_response (readall_text before mask) ≡ some mask
unfolding parse_readall_response
parse_readall_response-digits before mask h low =
    rw (reversed_lem before mask h, trailing_digits-digits 8 mask (reverse_onto [] before) low) refl
