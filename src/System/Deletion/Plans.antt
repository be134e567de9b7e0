-- ===== src/System/Deletion/Plans.antt =====
-- What a deletion has found out before it deletes anything.
use nix_redox.Base.{ℕ, Text, Option, List, ok, ◌≡◌, ap, ◌∙◌, arith, Result-cases, inl, inr}
use nix_redox.System.{Manifest, Files, load_manifest_from, read_boot_default, scan_generations}
use nix_redox.System.Selector.{GenerationSelector, parse_generation_selector}
use nix_redox.System.Deletion.{
  DeleteGenerationsStats, protected_set, to_delete, initial, refused_by, deletion_plan,
}

pub record Plan (now : ℕ) (selector : Text) (s : Files) (chosen : List ℕ)
    (stats : DeleteGenerationsStats) : Type 0 where
  pub current : Manifest
  pub boot_default : Option ℕ
  pub parsed : GenerationSelector
  pub loaded : load_manifest_from s.current ≡ ok current
  pub marked : read_boot_default s.boot_default ≡ ok boot_default
  pub parses : parse_generation_selector selector ≡ ok parsed
  pub picked :
      to_delete now
        (protected_set current.generation.id boot_default)
        (scan_generations s.generations)
        parsed
      ≡ ok chosen
  pub starts :
      initial (refused_by (protected_set current.generation.id boot_default) parsed) ≡ stats

pub deletion_plan-Plan :
    (now : ℕ) (selector : Text) (s : Files) (chosen : List ℕ) (stats : DeleteGenerationsStats)
    → deletion_plan now selector s ≡ ok (chosen, stats)
    → Plan now selector s chosen stats
unfolding deletion_plan
deletion_plan-Plan now selector s chosen stats e =
    elim (Result-cases (load_manifest_from s.current)) [
      | inr (x, l) ↦ absurd (ground arith)
      | inl (m, l) ↦ elim (Result-cases (read_boot_default s.boot_default)) [
        | inr (x, b) ↦ absurd (ground arith)
        | inl (boot, b) ↦ elim (Result-cases (parse_generation_selector selector)) [
          | inr (x, p) ↦ absurd (ground arith)
          | inl (parsed, p) ↦
              elim (Result-cases (
                to_delete now (protected_set m.generation.id boot) (scan_generations s.generations)
                  parsed)) [
                    | inr (x, d) ↦ absurd (ground arith)
                    | inl (found, d) ↦ record {
                      current = m;
                      boot_default = boot;
                      parsed = parsed;
                      loaded = l;
                      marked = b;
                      parses = p;
                      picked = d ∙ ap ok (ground arith);
                      starts = ground arith;
                    }
                  ]
        ]
      ]
    ]
