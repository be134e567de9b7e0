-- ===== src/System/Numbering.antt =====
-- The order of the scanned generations, and the number of the next one.
use nix_redox.Base.{
  ℕ, ◌+◌, ◌%◌, ◌^◌, ◌≤◌, ◌<◌, leb, Text, List, [], ◌∷◌, All, arith, Bool-cases, inl, inr,
}
use nix_redox.Base.BTreeMap.{BTreeMap}
use nix_redox.System.{
  Manifest, ManifestFile, Generation, insert_by_id, sort_by_id, read_generations, scan_generations,
  max, max_id, next_generation_id,
}

-- No id is above the bound.
abbrev pub Below : ℕ → List Generation → Type 0
Below n = All (λ g. g.id ≤ n)

-- The ids do not fall.
unfoldable pub IsAscending : List Generation → Type 0
IsAscending [] = Unit
IsAscending (g ∷ gs) = All (λ h. g.id ≤ h.id) gs × IsAscending gs

Below-max_id : (gs : List Generation) → Below (max_id gs) gs
unfolding max_id
Below-max_id [] = tt
Below-max_id (g ∷ gs) =
    (ground arith, Below-weaken (max_id gs) _ gs (ground arith) (Below-max_id gs))
  where
    Below-weaken : (m n : ℕ) (hs : List Generation) → m ≤ n → Below m hs → Below n hs
    Below-weaken m n [] h b = tt
    Below-weaken m n (x ∷ hs) h (b, bs) = (omega arith, Below-weaken m n hs h bs)

above :
    (a b : ℕ) (gs : List Generation)
    → max a b + 1 < 2 ^ 32
    → Below a gs
    → All (λ g. g.id < (max a b + 1) % 2 ^ 32) gs
above a b [] small rest = tt
above a b (g ∷ gs) small (head, rest) = (ground arith, above a b gs small rest)

-- The next generation has an id above those of all scanned generations and of the current one, as long
-- as these are below the largest u32.
pub next_generation_id-above :
    (dir : BTreeMap Text ManifestFile) (current : Manifest)
    → max (max_id (scan_generations dir)) current.generation.id + 1 < 2 ^ 32
    → All (λ g. g.id < next_generation_id dir current) (scan_generations dir)
      × (current.generation.id < next_generation_id dir current)
unfolding next_generation_id
next_generation_id-above dir current small = (
  above (max_id (scan_generations dir)) current.generation.id (scan_generations dir) small
      (Below-max_id (scan_generations dir)),
  ground arith,
)

insert-All :
    (n : ℕ) (g : Generation) (gs : List Generation)
    → n ≤ g.id
    → All (λ h. n ≤ h.id) gs
    → All (λ h. n ≤ h.id) (insert_by_id g gs)
unfolding insert_by_id
insert-All n g [] low rest = (low, tt)
insert-All n g (h ∷ hs) low (head, rest) = elim (Bool-cases (leb g.id h.id)) [
  | inl y ↦ rw (y) (low, (head, rest))
  | inr k ↦ rw (k) (head, insert-All n g hs low rest)
]

All-raise :
    (m n : ℕ) (gs : List Generation) → m ≤ n → All (λ h. n ≤ h.id) gs → All (λ h. m ≤ h.id) gs
All-raise m n [] le rest = tt
All-raise m n (g ∷ gs) le (head, rest) = (omega arith, All-raise m n gs le rest)

insert-IsAscending :
    (g : Generation) (gs : List Generation) → IsAscending gs → IsAscending (insert_by_id g gs)
unfolding insert_by_id IsAscending
insert-IsAscending g [] a = (tt, tt)
insert-IsAscending g (h ∷ hs) (all, a) = elim (Bool-cases (leb g.id h.id)) [
  | inl y ↦ rw (y) ((ground arith, All-raise g.id h.id hs (ground arith) all), (all, a))
  | inr k ↦ rw (k) (insert-All h.id g hs (ground arith) all, insert-IsAscending g hs a)
]

sort-IsAscending : (gs : List Generation) → IsAscending (sort_by_id gs)
unfolding sort_by_id IsAscending
sort-IsAscending [] = tt
sort-IsAscending (g ∷ gs) = insert-IsAscending g (sort_by_id gs) (sort-IsAscending gs)

-- The scanned generations come in the order of their ids.
pub scan_generations-IsAscending :
    (dir : BTreeMap Text ManifestFile) → IsAscending (scan_generations dir)
unfolding scan_generations
scan_generations-IsAscending dir = sort-IsAscending (read_generations dir)
