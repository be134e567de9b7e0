-- ===== src/Profile/Mapping/Resolution.antt =====
-- Which package answers for a path: the one installed last among those that have the file.
use nix_redox.Base.{
  Text, Bool, true, false, none, some, List, [], ◌∷◌, ◌++◌, All, ◌≡◌, ◌↔◌, refl, sym, ap, ◌∙◌,
  arith, Option-cases, inl, inr,
}
use nix_redox.Base.FilePath.{join}
use nix_redox.Profile.Mapping.{
  ProfileEntry, ProfileMapping, ResolvedFile, resolve_last, resolve_path,
}

module _ (exists : Text → Bool) (subpath : Text) where
  abbrev pub Lacks : ProfileEntry → Type 0
  Lacks p = exists (join p.store_path subpath) ≡ false

  -- A package that has the file, behind which no package has it.
  pub record Provider (packages : List ProfileEntry) (file : ResolvedFile) : Type 0 where
    pub before : List ProfileEntry
    pub entry : ProfileEntry
    pub after : List ProfileEntry
    pub split : packages ≡ before ++ (entry ∷ after)
    pub has : exists (join entry.store_path subpath) ≡ true
    pub overridden : All Lacks after
    pub answer : file ≡ record {
      package_name = entry.name;
      store_path = entry.store_path;
      full_path = join entry.store_path subpath;
    }

  resolve_last-none :
      (ps : List ProfileEntry) → resolve_last exists subpath ps ≡ none → All Lacks ps
  unfolding resolve_last
  resolve_last-none [] h = tt
  resolve_last-none (p ∷ ps) h = ground (arith, resolve_last-none ps)

  later :
      (p : ProfileEntry) (ps : List ProfileEntry) (file found : ResolvedFile)
      → resolve_last exists subpath ps ≡ some found
      → resolve_last exists subpath (p ∷ ps) ≡ some file
      → found ≡ file
  unfolding resolve_last
  later p ps file found e h = ground arith

  abbrev answer_of : ProfileEntry → ResolvedFile
  answer_of p = record {
    package_name = p.name;
    store_path = p.store_path;
    full_path = join p.store_path subpath;
  }

  here :
      (p : ProfileEntry) (ps : List ProfileEntry) (file : ResolvedFile)
      → resolve_last exists subpath ps ≡ none
      → resolve_last exists subpath (p ∷ ps) ≡ some file
      → (exists (join p.store_path subpath) ≡ true) × (file ≡ answer_of p)
  unfolding resolve_last
  here p ps file e h = ground arith

  resolve_last-some :
      (ps : List ProfileEntry) (file : ResolvedFile)
      → resolve_last exists subpath ps ≡ some file
      → Provider ps file
  resolve_last-some [] file h = absurd (unfold resolve_last in ground arith)
  resolve_last-some (p ∷ ps) file h = elim (Option-cases (resolve_last exists subpath ps)) [
    | inr (found, e) ↦
        let q = resolve_last-some ps found e in
        let same : found ≡ file = later p ps file found e h in
        record {
          before = p ∷ q.before;
          entry = q.entry;
          after = q.after;
          split = ap (λ r. p ∷ r) q.split;
          has = q.has;
          overridden = q.overridden;
          answer = sym same ∙ q.answer;
        }
    | inl n ↦
        let (there, same) = here p ps file n h in
        record {
          before = [];
          entry = p;
          after = ps;
          split = refl;
          has = there;
          overridden = resolve_last-none ps n;
          answer = same;
        }
  ]

  -- What `resolve_path` answers is the file of a package behind which no package has one.
  pub resolve_path-Provider :
      (m : ProfileMapping) (file : ResolvedFile)
      → resolve_path exists m subpath ≡ some file
      → Provider m.packages file
  unfolding resolve_path
  resolve_path-Provider m file h = resolve_last-some m.packages file h

  -- `resolve_path` finds nothing exactly if no package has the file.
  pub resolve_path-none :
      (m : ProfileMapping) → (resolve_path exists m subpath ≡ none) ↔ All Lacks m.packages
  unfolding resolve_path
  resolve_path-none m = (resolve_last-none m.packages, lacking m.packages)
    where
      lacking : (ps : List ProfileEntry) → All Lacks ps → resolve_last exists subpath ps ≡ none
      lacking [] h = unfold resolve_last in refl
      lacking (p ∷ ps) (h, hs) = unfold resolve_last in rw (lacking ps hs) (rw h)
