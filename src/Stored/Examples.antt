-- ===== src/Stored/Examples.antt =====
-- A manifest with a file and a directory.
use nix_redox.Base.{ℕ, Text, bytes, Bool, true, false, Option, none, some, List, [], ◌∷◌, ◌≡◌, refl}
use nix_redox.Base.Strings.{text_key, text_eq}
use nix_redox.Base.BTreeMap
use nix_redox.Nar.{ManifestEntry}
use nix_redox.Stored.{
  StoreDaemon, any_entry, directory_entry, prefix_of, list_from_manifest, ManifestDirEntry,
}
use nix_redox.Stored.Listing.{is_child, is_shown, list_from_manifest_exact}

abbrev manifest : List ManifestEntry
manifest =
    record { path = bytes "bin/rg"; entry_type = bytes "file"; size = 5; executable = true }
    ∷ record { path = bytes "README"; entry_type = bytes "file"; size = 3; executable = false }
    ∷ []

abbrev daemon : StoreDaemon
daemon = record {
  manifests = (bytes "r", manifest) ∷ [];
  registered_paths = bytes "r" ∷ [];
  nar_hashes = [];
}

abbrev entries : List ManifestDirEntry
entries =
    record {
      name = bytes "README";
      is_dir = false;
      is_symlink = false;
      size = 3;
      executable = false;
    }
    ∷ directory_entry (bytes "bin")
    ∷ []

loaded : BTreeMap.get (bytes "r") daemon.manifests ≡ some manifest
unfolding BTreeMap.get text_eq
loaded = refl

listed : list_from_manifest daemon (bytes "r") [] ≡ some entries
unfolding list_from_manifest BTreeMap.get text_eq BTreeMap.insert BTreeMap.contains_key
    nix_redox.Base.Strings.text_lt
listed = refl

list_from_manifest_exact_example :
    is_shown (bytes "bin") entries ≡ any_entry (is_child (prefix_of []) (bytes "bin")) manifest
list_from_manifest_exact_example =
    list_from_manifest_exact daemon (bytes "r") [] (bytes "bin") manifest entries loaded listed
