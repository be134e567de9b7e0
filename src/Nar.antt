-- ===== src/Nar.antt =====
-- snix-redox/src/nar.rs: extraction of a NAR to a file tree, with the manifest of its entries.
use nix_redox.Base.{ℕ, Text, Bool}

pub record ManifestEntry : Type 0 where
  pub path : Text
  pub entry_type : Text
  pub size : ℕ
  pub executable : Bool
