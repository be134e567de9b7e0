-- ===== src/System/Deletion/Newest.antt =====
-- Keeping the last generations.
use nix_redox.Base.{
  ℕ, zero, suc, ◌+◌, ◌-◌, ◌<◌, ◌≤◌, ◌==◌, ==_iff, ltb, leb, true, false, not, ◌&&◌, Text, List, [],
  ◌∷◌, length, take, All, ok, if◌then◌else◌, ◌≡◌, refl, sym, ap, arith, Bool-cases, inl, inr,
}
use nix_redox.Base.Strings.{text_key, nat_key}
use nix_redox.Base.BTreeSet
use nix_redox.Base.BTreeMap.{BTreeMap}
use nix_redox.System.{ManifestFile, Generation, scan_generations}
use nix_redox.System.Numbering.{IsAscending, scan_generations-IsAscending}
use nix_redox.System.Selector.{keep_last}
use nix_redox.System.Deletion.{gen_ids, unprotected, all_but_last, to_delete}

-- No id stands twice.
unfoldable pub Differ : List ℕ → Type 0
Differ [] = Unit
Differ (x ∷ xs) = (BTreeSet.contains x xs ≡ false) × Differ xs

-- Each id is below all that follow it.
Rises : List ℕ → Type 0
Rises [] = Unit
Rises (x ∷ xs) = All (λ y. x < y) xs × Rises xs

-- How many ids are above `x`.
unfoldable pub count_above : ℕ → List ℕ → ℕ
count_above x [] = 0
count_above x (y ∷ ys) = (if ltb x y then 1 else 0) + count_above x ys

count_above-le : (x : ℕ) (ys : List ℕ) → count_above x ys ≤ length ys
unfolding count_above
count_above-le x [] = ground arith
count_above-le x (y ∷ ys) = ground (arith, count_above-le x ys)

count_above-All : (x : ℕ) (ys : List ℕ) → All (λ y. x < y) ys → count_above x ys ≡ length ys
unfolding count_above
count_above-All x [] a = refl
count_above-All x (y ∷ ys) (h, a) = ground (arith, count_above-All x ys a)

not_below : (x : ℕ) (ys : List ℕ) → All (λ y. x < y) ys → BTreeSet.contains x ys ≡ false
unfolding BTreeSet.contains
not_below x [] a = refl
not_below x (y ∷ ys) (h, a) = ground (arith, not_below x ys a, ==_iff y x)

All-above :
    (n : ℕ) (gs : List Generation)
    → All (λ h. n ≤ h.id) gs
    → BTreeSet.contains n (gen_ids gs) ≡ false
    → All (λ y. n < y) (gen_ids gs)
unfolding gen_ids BTreeSet.contains
All-above n [] a d = tt
All-above n (g ∷ gs) (h, a) d = (ground (arith, h, ==_iff g.id n), All-above n gs a (ground arith))

-- Scanned ids stand in order, so that they rise where they differ.
Rises-gen_ids : (gs : List Generation) → IsAscending gs → Differ (gen_ids gs) → Rises (gen_ids gs)
unfolding gen_ids Rises Differ IsAscending
Rises-gen_ids [] a d = tt
Rises-gen_ids (g ∷ gs) (all, a) (absent, d) = (All-above g.id gs all absent, Rises-gen_ids gs a d)

contains-take :
    (x k : ℕ) (ys : List ℕ)
    → BTreeSet.contains x ys ≡ false
    → BTreeSet.contains x (take k ys) ≡ false
unfolding BTreeSet.contains
contains-take x zero ys h = refl
contains-take x (suc k) [] h = refl
contains-take x (suc k) (y ∷ ys) h = ground (arith, contains-take x k ys)

count_above-below :
    (x y : ℕ) (ys : List ℕ) → ltb x y ≡ false → count_above x (y ∷ ys) ≡ count_above x ys
unfolding count_above
count_above-below x y ys g = rw (g) (omega arith)

contained-count :
    (x : ℕ) (ys : List ℕ) → BTreeSet.contains x ys ≡ true → count_above x ys < length ys
unfolding BTreeSet.contains count_above
contained-count x [] h = absurd (ground arith)
contained-count x (y ∷ ys) h = elim (Bool-cases (y == x)) [
  | inl e ↦ ground (arith, count_above-le x ys, ==_iff y x)
  | inr n ↦ ground (arith, contained-count x ys)
]

All-lower : (x y : ℕ) (ys : List ℕ) → x < y → All (λ z. y < z) ys → All (λ z. x < z) ys
All-lower x y [] l a = tt
All-lower x y (z ∷ zs) l (h, a) = (omega (arith, l, h), All-lower x y zs l a)

head_taken :
    (x n k : ℕ) (ys : List ℕ)
    → All (λ y. x < y) ys
    → length ys ≡ k + n
    → leb n (count_above x (x ∷ ys)) ≡ true
unfolding count_above
head_taken x n k ys a e = ground (arith, count_above-All x ys a)

smaller_absent :
    (x y : ℕ) (ys : List ℕ) → x < y → All (λ z. y < z) ys → BTreeSet.contains x ys ≡ false
smaller_absent x y ys l a = not_below x ys (All-lower x y ys l a)

-- Of a rising list the first `k` are those with at least as many above them as are left out.
taken :
    (x k n : ℕ) (ys : List ℕ)
    → Rises ys
    → length ys ≡ k + n
    → BTreeSet.contains x (take k ys) ≡ (BTreeSet.contains x ys && leb n (count_above x ys))
unfolding Rises BTreeSet.contains
taken x zero n ys r e = elim (Bool-cases (BTreeSet.contains x ys)) [
  | inl c ↦ ground (arith, contained-count x ys c)
  | inr c ↦ rw (c) refl
]
taken x (suc k) n [] r e = refl
taken x (suc k) n (y ∷ ys) (a, r) e = elim (Bool-cases (y == x)) [
  | inl s ↦ rw (s, ← (==_iff y x).0 s, head_taken y n k ys a (omega (arith, e))) refl
  | inr d ↦ rw (d, taken x k n ys r (omega (arith, e))) (later x n y ys d a)
]
  where
    later :
        (x n y : ℕ) (ys : List ℕ)
        → (y == x) ≡ false
        → All (λ z. y < z) ys
        → (BTreeSet.contains x ys && leb n (count_above x ys))
          ≡ (BTreeSet.contains x ys && leb n (count_above x (y ∷ ys)))
    later x n y ys d a = elim (Bool-cases (ltb x y)) [
      | inl l ↦ rw (smaller_absent x y ys (ground arith) a) refl
      | inr g ↦ ap (λ c. BTreeSet.contains x ys && leb n c) (sym (count_above-below x y ys g))
    ]

contains-unprotected :
    (x : ℕ) (protected asked : List ℕ)
    → BTreeSet.contains x (unprotected protected asked)
      ≡ (BTreeSet.contains x asked && not (BTreeSet.contains x protected))
unfolding unprotected BTreeSet.contains
contains-unprotected x protected [] = refl
contains-unprotected x protected (y ∷ ys) =
    ground (arith, contains-unprotected x protected ys, ==_iff y x)

chosen_last :
    (now n : ℕ) (protected : List ℕ) (dir : BTreeMap Text ManifestFile) (chosen : List ℕ)
    → to_delete now protected (scan_generations dir) (keep_last n) ≡ ok chosen
    → unprotected protected (all_but_last n (gen_ids (scan_generations dir))) ≡ chosen
unfolding to_delete
chosen_last now n protected dir chosen e = ground arith

few :
    (x n : ℕ) (all : List ℕ)
    → leb (length all) n ≡ true
    → (BTreeSet.contains x all && leb n (count_above x all)) ≡ false
few x n all l = elim (Bool-cases (BTreeSet.contains x all)) [
  | inl c ↦ ground (arith, contained-count x all c)
  | inr c ↦ rw (c) refl
]

last_kept :
    (x n : ℕ) (all : List ℕ)
    → Rises all
    → BTreeSet.contains x (all_but_last n all)
      ≡ (BTreeSet.contains x all && leb n (count_above x all))
unfolding all_but_last BTreeSet.contains
last_kept x n all r = elim (Bool-cases (ltb n (length all))) [
  | inl y ↦ rw (y) (taken x (length all - n) n all r (ground arith))
  | inr k ↦ rw (k, few x n all (ground arith)) refl
]

-- Where no two scanned generations have the same id, and the last `n` generations are to be kept, exactly
-- the scanned ids are chosen for deletion that are not protected and have at least `n` scanned ids above
-- them.
pub to_delete_newest :
    (now n x : ℕ) (protected : List ℕ) (dir : BTreeMap Text ManifestFile) (chosen : List ℕ)
    → Differ (gen_ids (scan_generations dir))
    → to_delete now protected (scan_generations dir) (keep_last n) ≡ ok chosen
    → BTreeSet.contains x chosen ≡ (
        BTreeSet.contains x (gen_ids (scan_generations dir))
        && leb n (count_above x (gen_ids (scan_generations dir)))
        && not (BTreeSet.contains x protected))
to_delete_newest now n x protected dir chosen d e =
    let all = gen_ids (scan_generations dir) in
    let r : Rises all = Rises-gen_ids (scan_generations dir) (scan_generations-IsAscending dir) d in
    rw
      (
        ← chosen_last now n protected dir chosen e,
        contains-unprotected x protected (all_but_last n all),
        last_kept x n all r,
      )
      (ground arith)
