-- ===== src/Base/Strings.antt =====
-- Rust's `str` as its UTF-8 bytes, with the operations of the standard library that the program
-- uses on paths and names.
use Prim.Native.Char.{code}
use Prim.Native.String.{String}
use Prim.Native.Nat.{ℕ}
use mathlib.Core.Path.{◌≡◌, refl}
use mathlib.Core.Logic.{◌↔◌}
use mathlib.Core.Bool.{Bool, true, false, ◌&&◌, ◌||◌}
use mathlib.Core.List.{List, [], ◌∷◌}
use native.Mathlib.Omega.{arith}
use nix_redox.Base.Tests.{ltb, ◌==◌, ==_iff}
use nix_redox.Base.Keys.{Key}

abbrev pub Text : Type 0
Text = List ℕ

-- The bytes of an ASCII literal.
abbrev pub bytes : String → Text
bytes String.[] = []
bytes (String.◌∷◌ c s) = code c ∷ bytes s

unfoldable pub text_eq : Text → Text → Bool
text_eq [] [] = true
text_eq [] (y ∷ ys) = false
text_eq (x ∷ xs) [] = false
text_eq (x ∷ xs) (y ∷ ys) = x == y && text_eq xs ys

-- Byte-wise lexicographic order, the `Ord` of `str`.
unfoldable pub text_lt : Text → Text → Bool
text_lt xs [] = false
text_lt [] (y ∷ ys) = true
text_lt (x ∷ xs) (y ∷ ys) = ltb x y || (x == y && text_lt xs ys)

pub text_eq_refl : (a : Text) → text_eq a a ≡ true
unfolding text_eq
text_eq_refl [] = refl
text_eq_refl (x ∷ xs) = ground (arith, text_eq_refl xs)

pub text_eq→eq : (a b : Text) → text_eq a b ≡ true → a ≡ b
unfolding text_eq
text_eq→eq [] [] h = refl
text_eq→eq [] (y ∷ ys) h = cc
text_eq→eq (x ∷ xs) [] h = cc
text_eq→eq (x ∷ xs) (y ∷ ys) h = ground (arith, text_eq→eq xs ys)

pub text_eq_iff : (a b : Text) → (text_eq a b ≡ true) ↔ (a ≡ b)
text_eq_iff a b = (text_eq→eq a b, λ e. rw e (text_eq_refl b))

pub text_lt_total : (a b : Text) → text_eq a b ≡ false → text_lt a b ≡ false → text_lt b a ≡ true
unfolding text_eq text_lt
text_lt_total [] [] h l = cc
text_lt_total [] (y ∷ ys) h l = cc
text_lt_total (x ∷ xs) [] h l = refl
text_lt_total (x ∷ xs) (y ∷ ys) h l = ground (arith, text_lt_total xs ys)

pub text_lt_irrefl : (a : Text) → text_lt a a ≡ false
unfolding text_lt
text_lt_irrefl [] = refl
text_lt_irrefl (x ∷ xs) = ground (arith, text_lt_irrefl xs)

pub text_lt_trans : (a b c : Text) → text_lt a b ≡ true → text_lt b c ≡ true → text_lt a c ≡ true
unfolding text_lt
text_lt_trans a b [] h k = cc
text_lt_trans a [] (z ∷ zs) h k = cc
text_lt_trans [] (y ∷ ys) (z ∷ zs) h k = refl
text_lt_trans (x ∷ xs) (y ∷ ys) (z ∷ zs) h k = ground (arith, text_lt_trans xs ys zs)

instance abbrev pub text_key : Key Text
text_key = record {
  eqb = text_eq;
  lessb = text_lt;
  eqb_iff = text_eq_iff;
  lessb_total = text_lt_total;
  lessb_irrefl = text_lt_irrefl;
  lessb_trans = text_lt_trans;
}

pub nat_lessb_total : (a b : ℕ) → (a == b) ≡ false → ltb a b ≡ false → ltb b a ≡ true
nat_lessb_total a b h l = ground arith

pub nat_lessb_irrefl : (a : ℕ) → ltb a a ≡ false
nat_lessb_irrefl a = ground arith

pub nat_lessb_trans : (a b c : ℕ) → ltb a b ≡ true → ltb b c ≡ true → ltb a c ≡ true
nat_lessb_trans a b c h k = ground arith

instance abbrev pub nat_key : Key ℕ
nat_key = record {
  eqb = λ a b. a == b;
  lessb = λ a b. ltb a b;
  eqb_iff = ==_iff;
  lessb_total = nat_lessb_total;
  lessb_irrefl = nat_lessb_irrefl;
  lessb_trans = nat_lessb_trans;
}
