-- ===== src/GdbStub/Hex/RoundTrip.antt =====
-- Bytes survive their hexadecimal text.
use nix_redox.Base.{
  ℕ, ◌<◌, ◌*◌, ◌/◌, ◌%◌, ◌==◌, true, some, List, [], ◌∷◌, length, All, ◌≡◌, refl, arith,
}
use nix_redox.GdbStub.Hex.{
  hex_char, hex_byte, hex_encode, to_digit, digits_value, from_str_radix, decode_chunks, hex_decode,
}

abbrev pub IsByte : ℕ → Type 0
IsByte b = b < 256

to_digit-hex_char : (d : ℕ) → d < 16 → to_digit (hex_char d) ≡ some d
unfolding to_digit
to_digit-hex_char d h = ground arith

from_str_radix-hex_byte : (b : ℕ) → b < 256 → from_str_radix 256 (hex_byte b) ≡ some b
unfolding from_str_radix digits_value hex_byte
from_str_radix-hex_byte b h =
    let p : b / 16 < 16 = omega (arith, h) in
    let q : b % 16 < 16 = omega arith in
    rw (to_digit-hex_char (b / 16) p, to_digit-hex_char (b % 16) q, from_str_radix, digits_value)
      ground arith

decode_chunks-hex_encode : (bs : List ℕ) → All IsByte bs → decode_chunks (hex_encode bs) ≡ some bs
unfolding decode_chunks hex_encode hex_byte
decode_chunks-hex_encode [] h = refl
decode_chunks-hex_encode (b ∷ bs) (k, h) =
    rw (from_str_radix-hex_byte b k, decode_chunks-hex_encode bs h) refl

pub length-hex_encode : (bs : List ℕ) → length (hex_encode bs) ≡ 2 * length bs
unfolding hex_encode hex_byte
length-hex_encode [] = refl
length-hex_encode (b ∷ bs) = omega (arith, length-hex_encode bs)

even_length : (bs : List ℕ) → (length (hex_encode bs) % 2 == 0) ≡ true
even_length bs = rw (length-hex_encode bs) (even (length bs))
  where
    even : (n : ℕ) → (2 * n % 2 == 0) ≡ true
    even n = ground arith

-- `hex_decode` of what `hex_encode` makes of some bytes is these bytes.
pub hex_decode-hex_encode : (bs : List ℕ) → All IsByte bs → hex_decode (hex_encode bs) ≡ some bs
unfolding hex_decode
hex_decode-hex_encode bs h = rw (even_length bs, hex_decode) (decode_chunks-hex_encode bs h)
