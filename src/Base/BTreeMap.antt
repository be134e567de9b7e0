-- ===== src/Base/BTreeMap.antt =====
-- `BTreeMap` of the standard library as a list of bindings in key order. A lookup does not rely on
-- the order; an iteration does.
use mathlib.Core.Path.{◌≡◌, refl}
use mathlib.Core.Logic.{inl, inr}
use mathlib.Core.Bool.{Bool, true, false}
use mathlib.Core.Option.{Option, none, some}
use mathlib.Core.List.{List, [], ◌∷◌}
use native.Mathlib.Omega.{arith}
use nix_redox.Base.Tests.{if◌then◌else◌, Bool-cases}
use nix_redox.Base.Keys.{Key}

abbrev pub BTreeMap {ℓ κ} : Type ℓ → Type κ → Type (ℓ ⊔ κ)
BTreeMap K V = List (K × V)

module _ {ℓ} {K : Type ℓ} ⦃o : Key K⦄ where
  eqb_flip : (i k : K) → o.eqb i k ≡ false → o.eqb k i ≡ false
  eqb_flip i k n = ground (arith, o.eqb_iff i k, o.eqb_iff k i)

module _ {ℓ κ} {K : Type ℓ} {V : Type κ} ⦃o : Key K⦄ where
  unfoldable pub get : K → BTreeMap K V → Option V
  get k [] = none
  get k ((j, v) ∷ m) = if o.eqb j k then some v else get k m

  unfoldable pub insert : K → V → BTreeMap K V → BTreeMap K V
  insert k v [] = (k, v) ∷ []
  insert k v ((j, w) ∷ m) =
      let rest = insert k v m in
      if o.eqb j k then (k, v) ∷ m else if o.lessb k j then (k, v) ∷ ((j, w) ∷ m) else (j, w) ∷ rest

  unfoldable pub remove : K → BTreeMap K V → BTreeMap K V
  remove k [] = []
  remove k ((j, v) ∷ m) = let rest = remove k m in if o.eqb j k then rest else (j, v) ∷ rest

  unfoldable pub contains_key : K → BTreeMap K V → Bool
  contains_key k m = elim (get k m) [ none ↦ false | some v ↦ true ]

  pub get-insert :
      (k j : K) (v : V) (m : BTreeMap K V)
      → get j (insert k v m) ≡ (if o.eqb k j then some v else get j m)
  unfolding get insert
  get-insert k j v [] = refl
  get-insert k j v ((i, w) ∷ m) =
      ground (arith, o.eqb_iff k j, o.eqb_iff i k, o.eqb_iff i j, get-insert k j v m)

  pub get-remove :
      (k j : K) (m : BTreeMap K V) → get j (remove k m) ≡ (if o.eqb k j then none else get j m)
  unfolding get remove
  get-remove k j [] = ground arith
  get-remove k j ((i, w) ∷ m) =
      ground (arith, o.eqb_iff k j, o.eqb_iff i k, o.eqb_iff i j, get-remove k j m)

  -- The representation invariant: keys grow strictly.
  abbrev pub Above : K → BTreeMap K V → Type 0
  Above k [] = Unit
  Above k ((j, v) ∷ m) = (o.lessb k j ≡ true) × Above k m

  abbrev pub IsOrdered : BTreeMap K V → Type 0
  IsOrdered [] = Unit
  IsOrdered ((j, v) ∷ m) = Above j m × IsOrdered m

  Above-trans : (k j : K) (m : BTreeMap K V) → o.lessb k j ≡ true → Above j m → Above k m
  Above-trans k j [] h a = tt
  Above-trans k j ((i, w) ∷ m) h (b, a) = (o.lessb_trans k j i h b, Above-trans k j m h a)

  Above-insert :
      (j k : K) (v : V) (m : BTreeMap K V) → o.lessb j k ≡ true → Above j m → Above j (insert k v m)
  unfolding insert
  Above-insert j k v [] h a = (h, tt)
  Above-insert j k v ((i, w) ∷ m) h (b, a) = elim (Bool-cases (o.eqb i k)) [
    | inl e ↦ rw e (h, a)
    | inr n ↦ elim (Bool-cases (o.lessb k i)) [
      | inl l ↦ rw (n, l) (h, (b, a))
      | inr g ↦ rw (n, g) (b, Above-insert j k v m h a)
    ]
  ]

  pub IsOrdered-insert : (k : K) (v : V) (m : BTreeMap K V) → IsOrdered m → IsOrdered (insert k v m)
  unfolding insert
  IsOrdered-insert k v [] h = (tt, tt)
  IsOrdered-insert k v ((i, w) ∷ m) (a, h) = elim (Bool-cases (o.eqb i k)) [
    | inl e ↦ rw e (rw ((o.eqb_iff i k).0 e) at a, h)
    | inr n ↦ elim (Bool-cases (o.lessb k i)) [
      | inl l ↦ rw (n, l) ((l, Above-trans k i m l a), (a, h))
      | inr g ↦
          rw (n, g)
            (
              Above-insert i k v m (o.lessb_total k i (eqb_flip i k n) g) a,
              IsOrdered-insert k v m h,
            )
    ]
  ]

  Above-remove : (j k : K) (m : BTreeMap K V) → Above j m → Above j (remove k m)
  unfolding remove
  Above-remove j k [] a = tt
  Above-remove j k ((i, w) ∷ m) (b, a) = elim (Bool-cases (o.eqb i k)) [
    | inl e ↦ rw e (Above-remove j k m a)
    | inr n ↦ rw n (b, Above-remove j k m a)
  ]

  pub IsOrdered-remove : (k : K) (m : BTreeMap K V) → IsOrdered m → IsOrdered (remove k m)
  unfolding remove
  IsOrdered-remove k [] h = tt
  IsOrdered-remove k ((i, w) ∷ m) (a, h) = elim (Bool-cases (o.eqb i k)) [
    | inl e ↦ rw e (IsOrdered-remove k m h)
    | inr n ↦ rw n (Above-remove i k m a, IsOrdered-remove k m h)
  ]

  -- A key below all others is not bound.
  pub get-Above : (k : K) (m : BTreeMap K V) → Above k m → get k m ≡ none
  unfolding get
  get-Above k [] a = refl
  get-Above k ((i, w) ∷ m) (b, a) = elim (Bool-cases (o.eqb i k)) [
    | inl e ↦ absurd (ground (arith, o.lessb_irrefl k, o.eqb_iff i k))
    | inr n ↦ rw n (get-Above k m a)
  ]
