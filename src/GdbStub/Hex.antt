-- ===== src/GdbStub/Hex.antt =====
-- The hexadecimal texts of gdbstub: `hex_encode`, `hex_decode` and `parse_hex_u64` of
-- src/gdbstub/src/main.rs, with what `format!` and `from_str_radix` do.
pub mod RoundTrip
use nix_redox.Base.{
  ℕ, zero, suc, ◌+◌, ◌-◌, ◌*◌, ◌/◌, ◌%◌, ◌^◌, Text, Bool, ◌&&◌, ◌||◌, ◌==◌, ltb, leb, Option, none,
  some, and_then, List, [], ◌∷◌, ◌++◌, length, if◌then◌else◌,
}

-- A digit of `{:x}`.
abbrev pub hex_char : ℕ → ℕ
hex_char d = if ltb d 10 then 48 + d else 87 + d

-- `{:02x}` of a byte.
unfoldable pub hex_byte : ℕ → Text
hex_byte b = hex_char (b / 16) ∷ hex_char (b % 16) ∷ []

-- `{:x}`, of a number with at most `fuel` + 1 digits.
unfoldable pub lower_hex : ℕ → ℕ → Text
lower_hex zero n = hex_char (n % 16) ∷ []
lower_hex (suc fuel) n =
    let front = lower_hex fuel (n / 16) in
    if ltb n 16 then hex_char n ∷ [] else front ++ (hex_char (n % 16) ∷ [])

unfoldable pub hex_encode : List ℕ → Text
unfolding hex_byte
hex_encode [] = []
hex_encode (b ∷ bs) = hex_byte b ++ hex_encode bs

-- `char::to_digit(16)` of an ASCII character.
unfoldable pub to_digit : ℕ → Option ℕ
to_digit c =
    if leb 48 c && leb c 57
    then some (c - 48)
    else if leb 97 c && leb c 102
    then some (c - 87)
    else if leb 65 c && leb c 70
    then some (c - 55)
    else none

-- The digits of `from_str_radix`, with the overflow of a type of `bound` values.
unfoldable pub digits_value : ℕ → ℕ → Text → Option ℕ
unfolding to_digit
digits_value bound acc [] = some acc
digits_value bound acc (c ∷ cs) = and_then (to_digit c) (λ d.
    let rest = digits_value bound (acc * 16 + d) cs in
    if ltb (acc * 16 + d) bound then rest else none)

-- `from_str_radix(s, 16)` of an unsigned type: a leading `+` is allowed before a digit. A text that
-- is not UTF-8 has a byte that is no digit.
unfoldable pub from_str_radix : ℕ → Text → Option ℕ
unfolding digits_value
from_str_radix bound [] = none
from_str_radix bound (c ∷ []) = digits_value bound 0 (c ∷ [])
from_str_radix bound (c ∷ d ∷ cs) =
    if c == 43 then digits_value bound 0 (d ∷ cs) else digits_value bound 0 (c ∷ d ∷ cs)

-- The chunks of two characters.
unfoldable pub decode_chunks : Text → Option (List ℕ)
unfolding from_str_radix
decode_chunks [] = some []
decode_chunks (a ∷ []) = and_then (from_str_radix 256 (a ∷ [])) (λ v. some (v ∷ []))
decode_chunks (a ∷ b ∷ hex) =
    and_then (from_str_radix 256 (a ∷ b ∷ []))
      (λ v. and_then (decode_chunks hex) (λ out. some (v ∷ out)))

unfoldable pub hex_decode : Text → Option (List ℕ)
unfolding decode_chunks
hex_decode hex = if length hex % 2 == 0 then decode_chunks hex else none

unfoldable pub parse_hex_u64 : Text → Option ℕ
unfolding from_str_radix
parse_hex_u64 hex = from_str_radix (2 ^ 64) hex
