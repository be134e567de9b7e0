-- ===== src/Base/BTreeSet.antt =====
-- `BTreeSet` of the standard library as a list in order without repetition, membership of a list,
-- and `sort`.
use mathlib.Core.Path.{◌≡◌, refl}
use mathlib.Core.Logic.{◌⊎◌, inl, inr}
use mathlib.Core.Bool.{Bool, true, false, not, ◌&&◌, ◌||◌}
use mathlib.Core.List.{List, [], ◌∷◌, ◌++◌}
use native.Mathlib.Omega.{arith}
use nix_redox.Base.Tests.{if◌then◌else◌, Bool-cases}
use nix_redox.Base.Keys.{Key}

module _ {ℓ} {K : Type ℓ} ⦃o : Key K⦄ where
  unfoldable pub contains : K → List K → Bool
  contains k [] = false
  contains k (x ∷ xs) = o.eqb x k || contains k xs

  unfoldable pub insert : K → List K → List K
  insert k [] = k ∷ []
  insert k (x ∷ xs) =
      let rest = insert k xs in
      if o.eqb x k then x ∷ xs else if o.lessb k x then k ∷ (x ∷ xs) else x ∷ rest

  -- `extend`, and `collect` from the empty set.
  unfoldable pub extend : List K → List K → List K
  extend s [] = s
  extend s (x ∷ xs) = extend (insert x s) xs

  -- What passes a test, in order.
  unfoldable pub keep : (K → Bool) → List K → List K
  keep p [] = []
  keep p (x ∷ xs) = let rest = keep p xs in if p x then x ∷ rest else rest

  unfoldable pub difference : List K → List K → List K
  difference s t = keep (λ x. not (contains x t)) s

  insert_sorted : K → List K → List K
  insert_sorted k [] = k ∷ []
  insert_sorted k (x ∷ xs) =
      let rest = insert_sorted k xs in if o.lessb x k then x ∷ rest else k ∷ (x ∷ xs)

  unfoldable pub sort : List K → List K
  unfolding insert_sorted
  sort [] = []
  sort (x ∷ xs) = insert_sorted x (sort xs)

  pub contains-insert :
      (k j : K) (s : List K) → contains j (insert k s) ≡ (o.eqb k j || contains j s)
  unfolding contains insert
  contains-insert k j [] = refl
  contains-insert k j (x ∷ xs) =
      ground (arith, o.eqb_iff x k, o.eqb_iff x j, o.eqb_iff k j, contains-insert k j xs)

  pub contains-append :
      (j : K) (s t : List K) → contains j (s ++ t) ≡ (contains j s || contains j t)
  unfolding contains
  contains-append j [] t = refl
  contains-append j (x ∷ xs) t = ground (arith, contains-append j xs t)

  pub contains-extend :
      (j : K) (s t : List K) → contains j (extend s t) ≡ (contains j s || contains j t)
  unfolding extend contains
  contains-extend j s [] = ground arith
  contains-extend j s (x ∷ xs) =
      ground (arith, contains-extend j (insert x s) xs, contains-insert x j s)

  pub contains-keep :
      (p : K → Bool) (j : K) (s : List K) → contains j (keep p s) ≡ (contains j s && p j)
  unfolding keep contains
  contains-keep p j [] = refl
  contains-keep p j (x ∷ xs) = ground (arith, contains-keep p j xs, o.eqb_iff x j)

  contains-insert_sorted :
      (k j : K) (s : List K) → contains j (insert_sorted k s) ≡ (o.eqb k j || contains j s)
  unfolding contains insert_sorted
  contains-insert_sorted k j [] = refl
  contains-insert_sorted k j (x ∷ xs) = ground (arith, contains-insert_sorted k j xs)

  pub contains-sort : (j : K) (s : List K) → contains j (sort s) ≡ contains j s
  unfolding contains sort
  contains-sort j [] = refl
  contains-sort j (x ∷ xs) =
      ground (arith, contains-insert_sorted x j (sort xs), contains-sort j xs)

  pub contains-difference :
      (j : K) (s t : List K) → contains j (difference s t) ≡ (contains j s && not (contains j t))
  unfolding difference
  contains-difference j s t = contains-keep (λ x. not (contains x t)) j s

  -- The member of a grown list is new or old.
  pub insert-cases :
      (k j : K) (s : List K) → contains j (insert k s) ≡ true → (k ≡ j) ⊎ (contains j s ≡ true)
  insert-cases k j s h = elim (Bool-cases (o.eqb k j)) [
    | inl e ↦ inl ((o.eqb_iff k j).0 e)
    | inr n ↦ inr (ground (arith, contains-insert k j s))
  ]

  pub append-cases :
      (j : K) (s t : List K)
      → contains j (s ++ t) ≡ true
      → (contains j s ≡ true) ⊎ (contains j t ≡ true)
  append-cases j s t h = ground (arith, contains-append j s t)

  pub cons-cases :
      (k j : K) (s : List K) → contains j (k ∷ s) ≡ true → (k ≡ j) ⊎ (contains j s ≡ true)
  unfolding contains
  cons-cases k j s h = elim (Bool-cases (o.eqb k j)) [
    | inl e ↦ inl ((o.eqb_iff k j).0 e)
    | inr n ↦ inr (ground arith)
  ]

  pub keep→contains :
      (p : K → Bool) (j : K) (s : List K) → contains j (keep p s) ≡ true → contains j s ≡ true
  keep→contains p j s h = ground (arith, contains-keep p j s)

  pub contains-head : (k : K) (s : List K) → contains k (k ∷ s) ≡ true
  unfolding contains
  contains-head k s = ground (arith, o.eqb_iff k k)

  pub contains-tail : (k j : K) (s : List K) → contains j s ≡ true → contains j (k ∷ s) ≡ true
  unfolding contains
  contains-tail k j s h = ground arith
