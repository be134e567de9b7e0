-- ===== src/System/Deletion/Protection.antt =====
-- Protected generations: no deletion touches the current generation and the boot default.
use nix_redox.Base.{
  ℕ, ◌-◌, ◌*◌, ◌==◌, ==_iff, Text, Bool, true, false, Option, none, some, List, [], ◌∷◌, Result, ok,
  err, ◌≡◌, ◌⊎◌, refl, sym, ap, ◌∙◌, arith, Bool-cases, Option-cases, Result-cases, inl, inr,
}
use nix_redox.Base.Strings.{text_key, text_eq, text_eq_iff, nat_key}
use nix_redox.Base.BTreeMap
use nix_redox.Base.BTreeSet
use nix_redox.Base.Slices.{starts_with}
use nix_redox.Base.Decimal.{to_decimal, to_decimal-injective}
use nix_redox.System.{
  Manifest, Files, Generation, SystemError, load_manifest_from, read_boot_default, scan_generations,
}
use nix_redox.System.Selector.{GenerationSelector, ids, keep_last, older_than_days, old}
use nix_redox.System.Timestamps.{parse_timestamp_to_epoch}
use nix_redox.System.Roots.{root_prefix}
use nix_redox.System.Roots.Names.{prefixes_apart}
use nix_redox.System.Roots.Removal.{get-remove_generation_gc_roots}
use nix_redox.System.Deletion.Plans.{deletion_plan-Plan}
use nix_redox.System.Deletion.{
  DeleteGenerationsStats, gen_ids, protected_set, unprotected, older_than, all_but_last, to_delete,
  delete_generation, delete_loop, deleted, deletion_plan, delete_generations_with,
}

-- The directory of a generation and its roots are as before.
pub record Kept (id : ℕ) (s t : Files) : Type 0 where
  pub directory :
      BTreeMap.get (to_decimal id) t.generations ≡ BTreeMap.get (to_decimal id) s.generations
  pub roots :
      (j : Text)
      → starts_with (root_prefix id) j ≡ true
      → BTreeMap.get j t.roots ≡ BTreeMap.get j s.roots

Kept-refl : (id : ℕ) (s : Files) → Kept id s s
Kept-refl id s = record { directory = refl; roots = λ j h. refl }

Kept-trans : (id : ℕ) (s t u : Files) → Kept id s t → Kept id t u → Kept id s u
Kept-trans id s t u h k = record {
  directory = k.directory ∙ h.directory;
  roots = λ j p. k.roots j p ∙ h.roots j p;
}

decimals_apart : (a b : ℕ) → (a == b) ≡ false → text_eq (to_decimal a) (to_decimal b) ≡ false
decimals_apart a b h = elim (Bool-cases (text_eq (to_decimal a) (to_decimal b))) [
  | inr n ↦ n
  | inl y ↦
      let same : a ≡ b =
        to_decimal-injective a b ((text_eq_iff (to_decimal a) (to_decimal b)).0 y) in
      absurd (ground arith)
]

prefix_other :
    (a b : ℕ) (j : Text)
    → (a == b) ≡ false
    → starts_with (root_prefix b) j ≡ true
    → starts_with (root_prefix a) j ≡ false
prefix_other a b j h p = elim (Bool-cases (starts_with (root_prefix a) j)) [
  | inr n ↦ n
  | inl y ↦ let same : a ≡ b = prefixes_apart a b j y p in absurd (ground arith)
]

delete_generation-Kept :
    (x id : ℕ) (s : Files) → (x == id) ≡ false → Kept id s (delete_generation x s).1
unfolding delete_generation
delete_generation-Kept x id s h = record {
  directory =
      BTreeMap.get-remove (to_decimal x) (to_decimal id) s.generations
      ∙ rw (decimals_apart x id h) refl;
  roots = λ j p. get-remove_generation_gc_roots s.unlinks s.roots x j (prefix_other x id j h p);
}

delete_loop-Kept :
    (dry_run : Bool) (chosen : List ℕ) (stats : DeleteGenerationsStats) (s : Files) (id : ℕ)
    → BTreeSet.contains id chosen ≡ false
    → Kept id s (delete_loop dry_run chosen stats s).1
unfolding delete_loop BTreeSet.contains
delete_loop-Kept dry_run [] stats s id h = Kept-refl id s
delete_loop-Kept true (x ∷ rest) stats s id h =
    delete_loop-Kept true rest (deleted stats x 0) s id (ground arith)
delete_loop-Kept false (x ∷ rest) stats s id h =
    Kept-trans id s (delete_generation x s).1 _ (delete_generation-Kept x id s (ground arith)) (
      delete_loop-Kept false rest (deleted stats x (delete_generation x s).0)
        (delete_generation x s).1 id (ground arith))

contains-unprotected :
    (protected asked : List ℕ) (id : ℕ)
    → BTreeSet.contains id protected ≡ true
    → BTreeSet.contains id (unprotected protected asked) ≡ false
unfolding unprotected BTreeSet.contains
contains-unprotected protected [] id h = refl
contains-unprotected protected (x ∷ asked) id h =
    ground (arith, contains-unprotected protected asked id h, ==_iff x id)

contains-older_than :
    (cutoff : ℕ) (protected : List ℕ) (gens : List Generation) (chosen : List ℕ) (id : ℕ)
    → BTreeSet.contains id protected ≡ true
    → older_than cutoff protected gens ≡ some chosen
    → BTreeSet.contains id chosen ≡ false
unfolding older_than BTreeSet.contains
contains-older_than cutoff protected [] chosen id h e = ground arith
contains-older_than cutoff protected (g ∷ gens) chosen id h e =
    elim (Bool-cases (BTreeSet.contains g.id protected)) [
      | inl p ↦ contains-older_than cutoff protected gens chosen id h (rw (p) at e)
      | inr p ↦ elim (Option-cases (parse_timestamp_to_epoch g.manifest.generation.timestamp)) [
        | inl n ↦ absurd (ground arith)
        | inr (epoch, q) ↦ elim (Option-cases (older_than cutoff protected gens)) [
          | inl n ↦ absurd (ground arith)
          | inr (others, r) ↦
              ground
                (arith, contains-older_than cutoff protected gens others id h r, ==_iff g.id id)
        ]
      ]
    ]

contains-to_delete :
    (now : ℕ) (protected : List ℕ) (gens : List Generation) (selector : GenerationSelector)
    (chosen : List ℕ) (id : ℕ)
    → BTreeSet.contains id protected ≡ true
    → to_delete now protected gens selector ≡ ok chosen
    → BTreeSet.contains id chosen ≡ false
unfolding to_delete
contains-to_delete now protected gens (ids asked) chosen id h e =
    ground (arith, contains-unprotected protected asked id h)
contains-to_delete now protected gens (keep_last n) chosen id h e =
    ground (arith, contains-unprotected protected (all_but_last n (gen_ids gens)) id h)
contains-to_delete now protected gens (older_than_days days) chosen id h e =
    elim (Option-cases (older_than (now - days * 86400) protected gens)) [
      | inl n ↦ absurd (ground arith)
      | inr (some_chosen, r) ↦
          ground (arith, contains-older_than (now - days * 86400) protected gens some_chosen id h r)
    ]
contains-to_delete now protected gens old chosen id h e =
    ground (arith, contains-unprotected protected (gen_ids gens) id h)

-- The generation is the current one, or the boot default.
unfoldable pub IsProtected : ℕ → Files → Type 0
IsProtected id s =
    ((m : Manifest) × ((load_manifest_from s.current ≡ ok m) × (m.generation.id ≡ id)))
    ⊎ (read_boot_default s.boot_default ≡ ok (some id))

id_of : Result SystemError Manifest → ℕ
id_of (ok m) = m.generation.id
id_of (err e) = 0

contains-protected_set :
    (s : Files) (id : ℕ) (m : Manifest) (boot : Option ℕ)
    → IsProtected id s
    → load_manifest_from s.current ≡ ok m
    → read_boot_default s.boot_default ≡ ok boot
    → BTreeSet.contains id (protected_set m.generation.id boot) ≡ true
unfolding IsProtected BTreeSet.contains BTreeSet.insert id_of
contains-protected_set s id m none (inl (c, (e, q))) l b =
    let same : c.generation.id ≡ m.generation.id = ap id_of (sym e ∙ l) in ground arith
contains-protected_set s id m (some x) (inl (c, (e, q))) l b =
    let same : c.generation.id ≡ m.generation.id = ap id_of (sym e ∙ l) in ground arith
contains-protected_set s id m none (inr e) l b = absurd (ground (arith, sym e ∙ b))
contains-protected_set s id m (some x) (inr e) l b =
    let same : id ≡ x = ground (arith, sym e ∙ b) in ground arith

planned_apart :
    (now : ℕ) (selector : Text) (s : Files) (id : ℕ) (chosen : List ℕ)
    (stats : DeleteGenerationsStats)
    → IsProtected id s
    → deletion_plan now selector s ≡ ok (chosen, stats)
    → BTreeSet.contains id chosen ≡ false
planned_apart now selector s id chosen stats h e =
    let p = deletion_plan-Plan now selector s chosen stats e in
    contains-to_delete now (protected_set p.current.generation.id p.boot_default)
      (scan_generations s.generations) p.parsed chosen id
      (contains-protected_set s id p.current p.boot_default h p.loaded p.marked) p.picked

-- A deletion, dry or not, whatever it is asked to delete, and whether it succeeds or not, leaves the
-- directory and the roots of the current generation and of the boot default as they are.
pub delete_generations_with-Kept :
    (now : ℕ) (s : Files) (selector : Text) (dry_run : Bool) (id : ℕ)
    → IsProtected id s
    → Kept id s (delete_generations_with now s selector dry_run).1
unfolding delete_generations_with
delete_generations_with-Kept now s selector dry_run id h =
    elim (Result-cases (deletion_plan now selector s)) [
      | inr (x, e) ↦ rw (e, delete_generations_with) (Kept-refl id s)
      | inl ((chosen, stats), e) ↦
          rw (e, delete_generations_with)
            (delete_loop-Kept dry_run chosen stats s id
              (planned_apart now selector s id chosen stats h e))
    ]
