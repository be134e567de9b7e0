-- ===== src/Profile/Handles/Alloc.antt =====
-- An id for a new handle is always found, and is not in use.
use nix_redox.Base.{
  ℕ, zero, suc, ◌+◌, ◌-◌, ◌≤◌, ◌<◌, true, false, leb, ◌==◌, Option, none, some, [], ◌∷◌, length,
  if◌then◌else◌, ◌≡◌, refl, arith, Bool-cases, Option-cases, inl, inr,
}
use nix_redox.Base.Strings.{nat_key}
use nix_redox.Base.BTreeMap
use nix_redox.Base.BTreeMap.{BTreeMap}
use nix_redox.Profile.Handles.{Handle, HandleTable, max_handle_id, next_after, alloc_loop, alloc_id}

contains-remove :
    (k j : ℕ) (m : BTreeMap ℕ Handle)
    → BTreeMap.contains_key j (BTreeMap.remove k m)
      ≡ (if k == j then false else BTreeMap.contains_key j m)
unfolding BTreeMap.contains_key
contains-remove k j m = rw (BTreeMap.contains_key, BTreeMap.get-remove k j m) (ground arith)

length-remove : (k : ℕ) (m : BTreeMap ℕ Handle) → length (BTreeMap.remove k m) ≤ length m
unfolding BTreeMap.remove
length-remove k [] = omega arith
length-remove k ((j, v) ∷ m) = ground (arith, length-remove k m)

shorter :
    (k : ℕ) (m : BTreeMap ℕ Handle)
    → BTreeMap.contains_key k m ≡ true
    → length (BTreeMap.remove k m) < length m
unfolding BTreeMap.remove BTreeMap.contains_key BTreeMap.get
shorter k [] e = absurd (ground arith)
shorter k ((j, v) ∷ m) e = ground (arith, length-remove k m, shorter k m)

-- How many steps lead from an id to another, round the range of ids.
abbrev distance : ℕ → ℕ → ℕ → ℕ
distance max i j = if leb i j then j - i else j + max - i

module _ (max : ℕ) (handles : BTreeMap ℕ Handle) where
  -- `rest` has every handle whose id is less than `n` steps away.
  Ahead : ℕ → ℕ → BTreeMap ℕ Handle → Type 0
  Ahead n i rest =
      (j : ℕ)
      → 1 ≤ j
      → j ≤ max
      → distance max i j < n
      → BTreeMap.contains_key j handles ≡ true
      → BTreeMap.contains_key j rest ≡ true

  Ahead-next :
      (n i : ℕ) (rest : BTreeMap ℕ Handle)
      → 1 ≤ i
      → i ≤ max
      → suc n ≤ max
      → Ahead (suc n) i rest
      → Ahead n (next_after max i) (BTreeMap.remove i rest)
  unfolding Ahead
  Ahead-next n i rest lo hi small h j jlo jhi d c =
      rw (contains-remove i j rest) ground (arith, h j)

-- The range of the counter, and that some id is left.
pub record IsTable (t : HandleTable) : Type 0 where
  pub positive : 1 ≤ t.next_id
  pub bounded : t.next_id ≤ max_handle_id
  pub room : length t.handles < max_handle_id

-- What the allocation of an id answers: an id in the range that no open handle has, with the handles
-- as they were and the counter in its range.
pub record Fresh (max : ℕ) (t : HandleTable) (r : Option ℕ × HandleTable) : Type 0 where
  pub id : ℕ
  pub found : r.0 ≡ some id
  pub low : 1 ≤ id
  pub high : id ≤ max
  pub free : BTreeMap.get id t.handles ≡ none
  pub kept : r.1.handles ≡ t.handles
  pub next_low : 1 ≤ r.1.next_id
  pub next_high : r.1.next_id ≤ max

alloc_skips :
    (max fuel : ℕ) (t : HandleTable)
    → BTreeMap.contains_key t.next_id t.handles ≡ true
    → alloc_loop max (suc fuel) t
      ≡ alloc_loop max fuel (record t { next_id = next_after max t.next_id })
unfolding alloc_loop
alloc_skips max fuel t e = rw (e) (ground arith)

alloc_takes :
    (max fuel : ℕ) (t : HandleTable)
    → 1 ≤ t.next_id
    → t.next_id ≤ max
    → BTreeMap.contains_key t.next_id t.handles ≡ false
    → alloc_loop max (suc fuel) t
      ≡ (some t.next_id, record t { next_id = next_after max t.next_id })
unfolding alloc_loop
alloc_takes max fuel t lo hi e = rw (e) (ground arith)

free-get :
    (k : ℕ) (m : BTreeMap ℕ Handle) → BTreeMap.contains_key k m ≡ false → BTreeMap.get k m ≡ none
unfolding BTreeMap.contains_key
free-get k m e = ground (arith, Option-cases (BTreeMap.get k m))

alloc_loop-Fresh :
    (max fuel : ℕ) (t : HandleTable) (rest : BTreeMap ℕ Handle)
    → 1 ≤ t.next_id
    → t.next_id ≤ max
    → fuel ≤ max
    → length rest < fuel
    → Ahead max t.handles fuel t.next_id rest
    → Fresh max t (alloc_loop max fuel t)
unfolding Ahead
alloc_loop-Fresh max zero t rest lo hi small short ahead = absurd (omega arith)
alloc_loop-Fresh max (suc fuel) t rest lo hi small short ahead =
    elim (Bool-cases (BTreeMap.contains_key t.next_id t.handles)) [
      | inr e ↦ rw (alloc_takes max fuel t lo hi e) (record {
        id = t.next_id;
        found = refl;
        low = lo;
        high = hi;
        free = free-get t.next_id t.handles e;
        kept = refl;
        next_low = ground arith;
        next_high = ground arith;
      })
      | inl e ↦
          let present : BTreeMap.contains_key t.next_id rest ≡ true =
            ahead t.next_id lo hi (ground arith) e in
          let f =
            alloc_loop-Fresh max fuel (record t { next_id = next_after max t.next_id })
              (BTreeMap.remove t.next_id rest) (ground arith) (ground arith) (omega arith)
              (omega (arith, shorter t.next_id rest present))
              (Ahead-next max t.handles fuel t.next_id rest lo hi small ahead) in
          rw (alloc_skips max fuel t e) (record {
            id = f.id;
            found = f.found;
            low = f.low;
            high = f.high;
            free = f.free;
            kept = f.kept;
            next_low = f.next_low;
            next_high = f.next_high;
          })
    ]

-- As long as fewer handles are open than there are ids, `alloc_id` finds an id: one in the range that
-- no open handle has. The handles stay as they are, and the counter stays in its range.
pub alloc_id-Fresh : (t : HandleTable) → IsTable t → Fresh max_handle_id t (alloc_id t)
unfolding alloc_id Ahead
alloc_id-Fresh t h =
    alloc_loop-Fresh max_handle_id (suc (length t.handles)) t t.handles h.positive h.bounded
      (omega (arith, h.room)) (omega arith) (λ j jlo jhi d c. c)
