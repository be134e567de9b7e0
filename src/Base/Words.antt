-- ===== src/Base/Words.antt =====
-- Operations of `str` that split texts: at white space, at a byte, before a suffix.
use mathlib.Core.Path.{◌≡◌, refl, ap, ◌∙◌}
use mathlib.Core.Logic.{inl, inr}
use mathlib.Core.Bool.{Bool, true, ◌&&◌, ◌||◌}
use mathlib.Core.Option.{Option, none, some}
use mathlib.Core.List.{List, [], ◌∷◌, ◌++◌}
use native.Mathlib.Omega.{arith}
use Prim.Native.Nat.{ℕ, zero, suc, ◌+◌, ◌-◌, ◌/◌, ◌%◌}
use nix_redox.Base.Tests.{◌==◌, leb, if◌then◌else◌, Bool-cases}
use nix_redox.Base.Strings.{Text}
use nix_redox.Base.Decimal.{decimal_loop, to_decimal}
use nix_redox.Base.Slices.{is_empty}

abbrev or_else {ℓ} : {A : Type ℓ} → Option A → Option A → Option A
or_else none y = y
or_else (some x) y = some x

abbrev white_byte : ℕ → Bool
white_byte x = leb 9 x && leb x 13 || x == 32

abbrev white_two : ℕ → ℕ → Bool
white_two x y = x == 194 && (y == 133 || y == 160)

abbrev white_three : ℕ → ℕ → ℕ → Bool
white_three x y z =
    x == 225 && y == 154 && z == 128
    || x == 226
      && (y == 128 && (leb 128 z && leb z 138 || z == 168 || z == 169 || z == 175)
          || y == 129 && z == 159)
    || x == 227 && y == 128 && z == 128

-- The length of the white space character at the front of a text in UTF-8, or 0.
unfoldable pub white_front : Text → ℕ
white_front [] = 0
white_front (x ∷ []) = if white_byte x then 1 else 0
white_front (x ∷ y ∷ []) = if white_byte x then 1 else if white_two x y then 2 else 0
white_front (x ∷ y ∷ z ∷ s) =
    if white_byte x then 1 else if white_two x y then 2 else if white_three x y z then 3 else 0

-- `split_whitespace`: `skip` bytes of a white space character are to come, `word` has been read.
abbrev flush : Text → List Text → List Text
flush word rest = if is_empty word then rest else word ∷ rest

unfoldable pub words_loop : ℕ → Text → Text → List Text
unfolding white_front
words_loop skip word [] = flush word []
words_loop (suc skip) word (x ∷ s) = words_loop skip word s
words_loop zero word (x ∷ s) =
    let next = words_loop 0 (word ++ (x ∷ [])) s in
    let after = words_loop (white_front (x ∷ s) - 1) [] s in
    if white_front (x ∷ s) == 0 then next else flush word after

unfoldable pub split_whitespace : Text → List Text
unfolding words_loop
split_whitespace s = words_loop 0 [] s

unfoldable pub trim_white_start : ℕ → Text → Text
unfolding white_front
trim_white_start skip [] = []
trim_white_start (suc skip) (x ∷ s) = trim_white_start skip s
trim_white_start zero (x ∷ s) =
    let after = trim_white_start (white_front (x ∷ s) - 1) s in
    if white_front (x ∷ s) == 0 then x ∷ s else after

-- A character is kept where something follows that is not white space.
unfoldable pub trim_white_end : Text → Text
unfolding trim_white_start
trim_white_end [] = []
trim_white_end (x ∷ s) =
    let rest = trim_white_end s in if is_empty (trim_white_start 0 (x ∷ s)) then [] else x ∷ rest

-- `trim`
unfoldable pub trim_white : Text → Text
unfolding trim_white_start trim_white_end
trim_white s = trim_white_end (trim_white_start 0 s)

-- `strip_suffix` of a byte.
unfoldable pub strip_last : ℕ → Text → Option Text
strip_last c [] = none
strip_last c (x ∷ []) = if x == c then some [] else none
strip_last c (x ∷ y ∷ s) = elim (strip_last c (y ∷ s)) [
  | none ↦ none
  | some front ↦ some (x ∷ front)
]

abbrev put_front : ℕ → List Text → List Text
put_front x [] = (x ∷ []) ∷ []
put_front x (part ∷ parts) = (x ∷ part) ∷ parts

-- `split` at a byte.
unfoldable pub split : ℕ → Text → List Text
split c [] = [] ∷ []
split c (x ∷ s) = let rest = split c s in if x == c then [] ∷ rest else put_front x rest

-- A text of visible ASCII characters.
unfoldable pub is_plain : Text → Bool
is_plain [] = true
is_plain (x ∷ s) = leb 33 x && leb x 127 && is_plain s

white_front-plain :
    (x : ℕ) (s : Text) → leb 33 x ≡ true → leb x 127 ≡ true → white_front (x ∷ s) ≡ 0
unfolding white_front
white_front-plain x [] low high = ground arith
white_front-plain x (y ∷ []) low high = ground arith
white_front-plain x (y ∷ z ∷ s) low high = ground arith

trim_white_start-plain :
    (x : ℕ) (s : Text) → leb 33 x ≡ true → leb x 127 ≡ true → trim_white_start 0 (x ∷ s) ≡ x ∷ s
unfolding trim_white_start
trim_white_start-plain x s low high = rw (white_front-plain x s low high) refl

trim_white_end-plain : (s : Text) → is_plain s ≡ true → trim_white_end s ≡ s
unfolding trim_white_end is_plain
trim_white_end-plain [] h = refl
trim_white_end-plain (x ∷ s) h =
    rw (trim_white_start-plain x s (ground arith) (ground arith))
      (ap (λ r. x ∷ r) (trim_white_end-plain s (ground arith)))

-- There is nothing to trim of it.
pub trim_white-plain : (s : Text) → is_plain s ≡ true → trim_white s ≡ s
unfolding trim_white is_plain
trim_white-plain [] h = refl
trim_white-plain (x ∷ s) h =
    ap trim_white_end (trim_white_start-plain x s (ground arith) (ground arith))
    ∙ trim_white_end-plain (x ∷ s) h

is_plain-decimal_loop :
    (fuel n : ℕ) (acc : Text) → is_plain acc ≡ true → is_plain (decimal_loop fuel n acc) ≡ true
unfolding decimal_loop is_plain
is_plain-decimal_loop zero n acc h = h
is_plain-decimal_loop (suc fuel) n acc h =
    let front : is_plain ((48 + n % 10) ∷ acc) ≡ true = ground arith in
    elim (Bool-cases (n / 10 == 0)) [
      | inl q ↦ rw (q) front
      | inr q ↦ rw (q) (is_plain-decimal_loop fuel (n / 10) ((48 + n % 10) ∷ acc) front)
    ]

pub is_plain-to_decimal : (n : ℕ) → is_plain (to_decimal n) ≡ true
unfolding to_decimal is_plain
is_plain-to_decimal n = is_plain-decimal_loop (suc n) n [] refl
