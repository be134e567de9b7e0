-- ===== src/Base/Keys.antt =====
-- What the ordered maps of the standard library ask of their keys: a decidable total order.
use mathlib.Core.Path.{◌≡◌}
use mathlib.Core.Logic.{◌↔◌}
use mathlib.Core.Bool.{Bool, true, false}

pub record Key {ℓ} (K : Type ℓ) : Type ℓ where
  pub eqb : K → K → Bool
  pub lessb : K → K → Bool
  pub eqb_iff : (a b : K) → (eqb a b ≡ true) ↔ (a ≡ b)
  pub lessb_total : (a b : K) → eqb a b ≡ false → lessb a b ≡ false → lessb b a ≡ true
  pub lessb_irrefl : (a : K) → lessb a a ≡ false
  pub lessb_trans : (a b c : K) → lessb a b ≡ true → lessb b c ≡ true → lessb a c ≡ true
