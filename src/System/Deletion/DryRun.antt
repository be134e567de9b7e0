-- ===== src/System/Deletion/DryRun.antt =====
-- A dry run against the real one.
use nix_redox.Base.{
  ℕ, ◌+◌, ◌%◌, ◌^◌, Text, Bool, true, false, List, [], ◌∷◌, ◌++◌, Result, ok, err, ◌≡◌, refl, sym,
  ap, ◌∙◌, Result-cases, inl, inr,
}
use nix_redox.System.{Files, SystemError}
use nix_redox.System.Deletion.{
  DeleteGenerationsStats, deleted, delete_generation, delete_loop, deletion_plan,
  delete_generations_with,
}

-- What the statistics say about generations: how many go, which ones, and which are refused.
abbrev pub shown : DeleteGenerationsStats → ℕ × (List ℕ × List ℕ)
shown stats = (stats.generations_deleted, (stats.deleted_ids, stats.protected_ids))

abbrev pub announced :
    Result SystemError DeleteGenerationsStats → Result SystemError (ℕ × (List ℕ × List ℕ))
announced (ok stats) = ok (shown stats)
announced (err e) = err e

advance : List ℕ → ℕ × (List ℕ × List ℕ) → ℕ × (List ℕ × List ℕ)
advance [] s = s
advance (id ∷ rest) (n, (gone, kept)) = advance rest ((n + 1) % 2 ^ 32, (gone ++ (id ∷ []), kept))

shown-delete_loop :
    (dry_run : Bool) (chosen : List ℕ) (stats : DeleteGenerationsStats) (s : Files)
    → shown (delete_loop dry_run chosen stats s).0 ≡ advance chosen (shown stats)
unfolding delete_loop advance
shown-delete_loop dry_run [] stats s = refl
shown-delete_loop true (id ∷ rest) stats s = shown-delete_loop true rest (deleted stats id 0) s
shown-delete_loop false (id ∷ rest) stats s =
    shown-delete_loop false rest (deleted stats id (delete_generation id s).0)
      (delete_generation id s).1

delete_loop-dry :
    (chosen : List ℕ) (stats : DeleteGenerationsStats) (s : Files)
    → (delete_loop true chosen stats s).1 ≡ s
unfolding delete_loop
delete_loop-dry [] stats s = refl
delete_loop-dry (id ∷ rest) stats s = delete_loop-dry rest (deleted stats id 0) s

-- A dry run changes nothing, and answers what the real run answers: the same error, or the same
-- generations as deleted and the same as protected.
pub delete_generations_with_foretold :
    (now : ℕ) (s : Files) (selector : Text)
    → ((delete_generations_with now s selector true).1 ≡ s)
      × (announced (delete_generations_with now s selector true).0
          ≡ announced (delete_generations_with now s selector false).0)
unfolding delete_generations_with
delete_generations_with_foretold now s selector =
    elim (Result-cases (deletion_plan now selector s)) [
      | inr (x, e) ↦ rw (e, delete_generations_with) (refl, refl)
      | inl ((chosen, stats), e) ↦
          rw (e, delete_generations_with)
            (
              delete_loop-dry chosen stats s,
              ap ok (
                  shown-delete_loop true chosen stats s
                  ∙ sym (shown-delete_loop false chosen stats s)),
            )
    ]
