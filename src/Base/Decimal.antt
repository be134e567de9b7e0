-- ===== src/Base/Decimal.antt =====
-- Decimal texts: `{}` of an unsigned number, and `parse` of an unsigned type.
use mathlib.Core.Path.{◌≡◌, refl, sym, ap, ◌∙◌}
use mathlib.Core.Logic.{inl, inr}
use mathlib.Core.Bool.{Bool, false, ◌&&◌}
use mathlib.Core.Option.{Option, none, some}
use mathlib.Core.List.{[], ◌∷◌}
use native.Mathlib.Omega.{arith}
use Prim.Native.Nat.{ℕ, zero, suc, ◌+◌, ◌-◌, ◌*◌, ◌/◌, ◌%◌, ◌^◌, ◌<◌}
use nix_redox.Base.Tests.{◌==◌, ltb, leb, if◌then◌else◌, Bool-cases}
use nix_redox.Base.Strings.{Text}
use nix_redox.Base.Slices.{has_byte}

-- The digits of a number of at most `fuel` digits, in front of a text.
unfoldable pub decimal_loop : ℕ → ℕ → Text → Text
decimal_loop zero n acc = acc
decimal_loop (suc fuel) n acc =
    let rest = decimal_loop fuel (n / 10) ((48 + n % 10) ∷ acc) in
    if n / 10 == 0 then (48 + n % 10) ∷ acc else rest

-- A number has at most as many digits as it is large, and one.
unfoldable pub to_decimal : ℕ → Text
unfolding decimal_loop
to_decimal n = decimal_loop (suc n) n []

abbrev pub is_digit : ℕ → Bool
is_digit c = leb 48 c && leb c 57

-- The digits of `parse`, with the overflow of a type of `bound` values.
unfoldable pub digits_value : ℕ → ℕ → Text → Option ℕ
digits_value bound acc [] = some acc
digits_value bound acc (c ∷ cs) =
    let rest = digits_value bound (acc * 10 + (c - 48)) cs in
    if is_digit c && ltb (acc * 10 + (c - 48)) bound then rest else none

-- `parse`: a `+` is allowed in front of a digit.
unfoldable pub parse_unsigned : ℕ → Text → Option ℕ
unfolding digits_value
parse_unsigned bound [] = none
parse_unsigned bound (c ∷ []) = digits_value bound 0 (c ∷ [])
parse_unsigned bound (c ∷ d ∷ cs) =
    if c == b'+' then digits_value bound 0 (d ∷ cs) else digits_value bound 0 (c ∷ d ∷ cs)

digits_value-step :
    (bound acc d : ℕ) (cs : Text)
    → d < 10
    → acc * 10 + d < bound
    → digits_value bound acc ((48 + d) ∷ cs) ≡ digits_value bound (acc * 10 + d) cs
unfolding digits_value
digits_value-step bound acc d cs small fits = rw (take_back d) (ground arith)
  where
    take_back : (d : ℕ) → 48 + d - 48 ≡ d
    take_back d = omega arith

div_fits : (n fuel : ℕ) → n < 10 ^ suc fuel → n / 10 < 10 ^ fuel
div_fits n fuel h = omega arith

digits_value-last :
    (bound n : ℕ) (acc : Text)
    → n < bound
    → n / 10 ≡ 0
    → digits_value bound 0 ((48 + n % 10) ∷ acc) ≡ digits_value bound n acc
digits_value-last bound n acc fits e =
    digits_value-step bound 0 (n % 10) acc (omega arith) (omega arith)
    ∙ ap (λ x. digits_value bound x acc) (omega arith)

digits_value-decimal_loop :
    (bound fuel n : ℕ) (acc : Text)
    → n < bound
    → n < 10 ^ suc fuel
    → digits_value bound 0 (decimal_loop (suc fuel) n acc) ≡ digits_value bound n acc
unfolding decimal_loop
digits_value-decimal_loop bound zero n acc fits small =
    rw (tens) (digits_value-last bound n acc fits tens)
  where
    tens : n / 10 ≡ 0
    tens = omega arith
digits_value-decimal_loop bound (suc fuel) n acc fits small = elim (Bool-cases (n / 10 == 0)) [
  | inl e ↦ rw (e) (digits_value-last bound n acc fits (ground arith))
  | inr e ↦ rw (e) (
      digits_value-decimal_loop bound fuel (n / 10) ((48 + n % 10) ∷ acc) (omega arith)
        (div_fits n (suc fuel) small)
      ∙ digits_value-step bound (n / 10) (n % 10) acc (omega arith) (omega arith)
      ∙ ap (λ x. digits_value bound x acc) (omega arith))
]

-- The text begins with a digit.
decimal_loop-cons :
    (fuel n : ℕ) (acc : Text)
    → (d : ℕ) × ((rest : Text) × ((d < 10) × (decimal_loop (suc fuel) n acc ≡ (48 + d) ∷ rest)))
unfolding decimal_loop
decimal_loop-cons zero n acc = (n % 10, (acc, (omega arith, ground arith)))
decimal_loop-cons (suc fuel) n acc = elim (Bool-cases (n / 10 == 0)) [
  | inl e ↦ (n % 10, (acc, (omega arith, rw (e) refl)))
  | inr e ↦
      let (d, (rest, (small, q))) = decimal_loop-cons fuel (n / 10) ((48 + n % 10) ∷ acc) in
      (d, (rest, (small, rw (e) q)))
]

parse_unsigned-digit :
    (bound d : ℕ) (rest : Text)
    → d < 10
    → parse_unsigned bound ((48 + d) ∷ rest) ≡ digits_value bound 0 ((48 + d) ∷ rest)
unfolding parse_unsigned
parse_unsigned-digit bound d [] small = refl
parse_unsigned-digit bound d (x ∷ rest) small = rw (no_plus) refl
  where
    no_plus : ((48 + d) == b'+') ≡ false
    no_plus = ground arith

power_above : (n : ℕ) → n < 10 ^ suc n
power_above zero = omega arith
power_above (suc n) = omega (arith, power_above n)

-- A number of the type is read back.
pub parse_unsigned-to_decimal :
    (bound n : ℕ) → n < bound → parse_unsigned bound (to_decimal n) ≡ some n
unfolding to_decimal digits_value
parse_unsigned-to_decimal bound n fits =
    let (d, (rest, (small, e))) = decimal_loop-cons n n [] in
    ap (parse_unsigned bound) e
    ∙ parse_unsigned-digit bound d rest small
    ∙ ap (digits_value bound 0) (sym e)
    ∙ digits_value-decimal_loop bound n n [] fits (power_above n)

pub to_decimal-injective : (a b : ℕ) → to_decimal a ≡ to_decimal b → a ≡ b
to_decimal-injective a b e = some-injective (
    sym (parse_unsigned-to_decimal (suc (a + b)) a (omega arith))
    ∙ ap (parse_unsigned (suc (a + b))) e
    ∙ parse_unsigned-to_decimal (suc (a + b)) b (omega arith))
  where
    some-injective : {x y : ℕ} → some x ≡ some y → x ≡ y
    some-injective h = ground (arith, h)

has_byte-decimal_loop :
    (c fuel n : ℕ) (acc : Text)
    → is_digit c ≡ false
    → has_byte c acc ≡ false
    → has_byte c (decimal_loop fuel n acc) ≡ false
unfolding decimal_loop has_byte
has_byte-decimal_loop c zero n acc h e = e
has_byte-decimal_loop c (suc fuel) n acc h e =
    let front : has_byte c ((48 + n % 10) ∷ acc) ≡ false = ground arith in
    elim (Bool-cases (n / 10 == 0)) [
      | inl q ↦ rw (q) front
      | inr q ↦ rw (q) (has_byte-decimal_loop c fuel (n / 10) ((48 + n % 10) ∷ acc) h front)
    ]

pub has_byte-to_decimal : (c n : ℕ) → is_digit c ≡ false → has_byte c (to_decimal n) ≡ false
unfolding to_decimal has_byte
has_byte-to_decimal c n h = has_byte-decimal_loop c (suc n) n [] h refl
