-- ===== src/AllowList/Cleaning.antt =====
-- `clean_path` leaves no dots, and undoes every detour.
use nix_redox.Base.{
  Text, true, [], ◌∷◌, ◌++◌, All, ◌≡◌, ◌↔◌, refl, sym, ap, ◌∙◌, arith, Bool-cases, inl, inr,
}
use mathlib.Core.List.{append-nil, append_assoc}
use nix_redox.Base.Strings.{text_eq_iff, text_eq_refl}
use nix_redox.Base.FilePath.{
  Component, root_dir, cur_dir, parent_dir, normal, same_component, pop, push, is_prefix, same_path,
}
use nix_redox.AllowList.{FilePath, clean_loop, clean_path, path_matches_prefix}

abbrev pub IsNormal : Component → Type 0
IsNormal (normal n) = Unit
IsNormal _ = ⊥

-- A path with names only, behind the root if it is absolute.
abbrev pub IsClean : FilePath → Type 0
IsClean [] = Unit
IsClean (root_dir ∷ names) = All IsNormal names
IsClean (c ∷ names) = IsNormal c × All IsNormal names

-- Everything but the root: what `components` yields behind the first component.
abbrev IsInner : Component → Type 0
IsInner root_dir = ⊥
IsInner _ = Unit

-- What `components` yields: the root at the front only.
abbrev pub IsParsed : FilePath → Type 0
IsParsed [] = Unit
IsParsed (root_dir ∷ rest) = All IsInner rest
IsParsed (c ∷ rest) = All IsInner rest

pub clean_loop-append :
    (result path rest : FilePath)
    → clean_loop result (path ++ rest) ≡ clean_loop (clean_loop result path) rest
unfolding clean_loop
clean_loop-append result [] rest = refl
clean_loop-append result (parent_dir ∷ path) rest = clean_loop-append (pop result) path rest
clean_loop-append result (cur_dir ∷ path) rest = clean_loop-append result path rest
clean_loop-append result (root_dir ∷ path) rest = clean_loop-append (push result root_dir) path rest
clean_loop-append result (normal n ∷ path) rest =
    clean_loop-append (push result (normal n)) path rest

pop-push : (result : FilePath) (n : Text) → pop (result ++ (normal n ∷ [])) ≡ result
unfolding pop
pop-push [] n = refl
pop-push (root_dir ∷ []) n = refl
pop-push (c ∷ []) n = refl
pop-push (c ∷ (d ∷ rest)) n = ap (λ r. c ∷ r) (pop-push (d ∷ rest) n)

-- Going into a directory and back up changes nothing, wherever in the path it stands.
pub clean_path_detour :
    (path rest : FilePath) (n : Text)
    → clean_path (path ++ (normal n ∷ (parent_dir ∷ rest))) ≡ clean_path (path ++ rest)
unfolding clean_path clean_loop push
clean_path_detour path rest n =
    clean_loop-append [] path (normal n ∷ (parent_dir ∷ rest))
    ∙ ap (λ r. clean_loop r rest) (pop-push (clean_loop [] path) n)
    ∙ sym (clean_loop-append [] path rest)

IsNormal-pop : (names : FilePath) → All IsNormal names → All IsNormal (pop names)
unfolding pop
IsNormal-pop [] h = tt
IsNormal-pop (normal n ∷ []) h = tt
IsNormal-pop (root_dir ∷ []) h = absurd h.0
IsNormal-pop (cur_dir ∷ []) h = tt
IsNormal-pop (parent_dir ∷ []) h = tt
IsNormal-pop (c ∷ (d ∷ rest)) h = (h.0, IsNormal-pop (d ∷ rest) h.1)

IsClean-pop : (path : FilePath) → IsClean path → IsClean (pop path)
IsClean-pop [] h = unfold pop in tt
IsClean-pop (root_dir ∷ []) h = unfold pop in tt
IsClean-pop (root_dir ∷ (d ∷ rest)) h = unfold pop in IsNormal-pop (d ∷ rest) h
IsClean-pop (cur_dir ∷ rest) h = absurd h.0
IsClean-pop (parent_dir ∷ rest) h = absurd h.0
IsClean-pop (normal n ∷ []) h = unfold pop in tt
IsClean-pop (normal n ∷ (d ∷ rest)) h = unfold pop in (tt, IsNormal-pop (d ∷ rest) h.1)

All-snoc :
    (names : FilePath) (n : Text) → All IsNormal names → All IsNormal (names ++ (normal n ∷ []))
All-snoc [] n h = (tt, tt)
All-snoc (c ∷ names) n h = (h.0, All-snoc names n h.1)

IsClean-push : (path : FilePath) (n : Text) → IsClean path → IsClean (push path (normal n))
unfolding push
IsClean-push [] n h = (tt, tt)
IsClean-push (root_dir ∷ rest) n h = All-snoc rest n h
IsClean-push (cur_dir ∷ rest) n h = absurd h.0
IsClean-push (parent_dir ∷ rest) n h = absurd h.0
IsClean-push (normal m ∷ rest) n h = (tt, All-snoc rest n h.1)

IsClean-clean_loop :
    (result path : FilePath) → IsClean result → All IsInner path → IsClean (clean_loop result path)
unfolding clean_loop
IsClean-clean_loop result [] h i = h
IsClean-clean_loop result (root_dir ∷ path) h i = absurd i.0
IsClean-clean_loop result (parent_dir ∷ path) h i =
    IsClean-clean_loop (pop result) path (IsClean-pop result h) i.1
IsClean-clean_loop result (cur_dir ∷ path) h i = IsClean-clean_loop result path h i.1
IsClean-clean_loop result (normal n ∷ path) h i =
    IsClean-clean_loop (push result (normal n)) path (IsClean-push result n h) i.1

-- A cleaned path has names only, behind the root if the path is absolute: no dots are left.
pub clean_path-IsClean : (path : FilePath) → IsParsed path → IsClean (clean_path path)
unfolding clean_path
clean_path-IsClean [] h = unfold clean_loop in tt
clean_path-IsClean (root_dir ∷ path) h =
    unfold clean_loop push in IsClean-clean_loop (root_dir ∷ []) path tt h
clean_path-IsClean (cur_dir ∷ path) h = unfold clean_loop in IsClean-clean_loop [] path tt h
clean_path-IsClean (parent_dir ∷ path) h = unfold clean_loop pop in IsClean-clean_loop [] path tt h
clean_path-IsClean (normal n ∷ path) h =
    unfold clean_loop push in IsClean-clean_loop (normal n ∷ []) path (tt, tt) h

clean_loop-names :
    (result names : FilePath) → All IsNormal names → clean_loop result names ≡ result ++ names
unfolding clean_loop push
clean_loop-names result [] h = sym (append-nil result)
clean_loop-names result (root_dir ∷ names) h = absurd h.0
clean_loop-names result (cur_dir ∷ names) h = absurd h.0
clean_loop-names result (parent_dir ∷ names) h = absurd h.0
clean_loop-names result (normal n ∷ names) h =
    clean_loop-names (result ++ (normal n ∷ [])) names h.1
    ∙ append_assoc result (normal n ∷ []) names

-- A path that is clean already is left as it is.
pub clean_path-id : (path : FilePath) → IsClean path → clean_path path ≡ path
unfolding clean_path clean_loop push
clean_path-id [] h = refl
clean_path-id (root_dir ∷ names) h = clean_loop-names (root_dir ∷ []) names h
clean_path-id (cur_dir ∷ names) h = absurd h.0
clean_path-id (parent_dir ∷ names) h = absurd h.0
clean_path-id (normal n ∷ names) h = clean_loop-names (normal n ∷ []) names h.1

same_component→eq : (c d : Component) → same_component c d ≡ true → c ≡ d
same_component→eq root_dir root_dir h = refl
same_component→eq cur_dir cur_dir h = refl
same_component→eq parent_dir parent_dir h = refl
same_component→eq (normal a) (normal b) h = ap normal ((text_eq_iff a b).0 h)
same_component→eq root_dir cur_dir h = cc
same_component→eq root_dir parent_dir h = cc
same_component→eq root_dir (normal b) h = cc
same_component→eq cur_dir root_dir h = cc
same_component→eq cur_dir parent_dir h = cc
same_component→eq cur_dir (normal b) h = cc
same_component→eq parent_dir root_dir h = cc
same_component→eq parent_dir cur_dir h = cc
same_component→eq parent_dir (normal b) h = cc
same_component→eq (normal a) root_dir h = cc
same_component→eq (normal a) cur_dir h = cc
same_component→eq (normal a) parent_dir h = cc

same_component_refl : (c : Component) → same_component c c ≡ true
same_component_refl root_dir = refl
same_component_refl cur_dir = refl
same_component_refl parent_dir = refl
same_component_refl (normal a) = text_eq_refl a

same_path→eq : (p q : FilePath) → same_path p q ≡ true → p ≡ q
unfolding same_path
same_path→eq [] [] h = refl
same_path→eq [] (d ∷ ds) h = cc
same_path→eq (c ∷ cs) [] h = cc
same_path→eq (c ∷ cs) (d ∷ ds) h = ground (arith, same_component→eq c d, same_path→eq cs ds)

is_prefix-some : (p q : FilePath) → is_prefix p q ≡ true → (rest : FilePath) × (q ≡ p ++ rest)
unfolding is_prefix
is_prefix-some [] q h = (q, refl)
is_prefix-some (c ∷ cs) [] h = absurd (ground arith)
is_prefix-some (c ∷ cs) (d ∷ ds) h =
    let (rest, e) = is_prefix-some cs ds (ground arith) in
    (rest, ground (arith, same_component→eq c d))

is_prefix-append : (p rest : FilePath) → is_prefix p (p ++ rest) ≡ true
unfolding is_prefix
is_prefix-append [] rest = refl
is_prefix-append (c ∷ cs) rest = ground (arith, same_component_refl c, is_prefix-append cs rest)

-- A path matches an entry exactly when, with its dots resolved, it is the entry followed by further
-- components.
pub path_matches_prefix_exact :
    (path prefix : FilePath)
    → (path_matches_prefix path prefix ≡ true)
      ↔ ((rest : FilePath) × (clean_path path ≡ prefix ++ rest))
unfolding path_matches_prefix
path_matches_prefix_exact path prefix = (
  λ h. elim (Bool-cases (same_path (clean_path path) prefix)) [
    | inl s ↦ ([], same_path→eq (clean_path path) prefix s ∙ sym (append-nil prefix))
    | inr n ↦ is_prefix-some prefix (clean_path path) (ground arith)
  ],
  λ (rest, e). ground (arith, ap (λ q. is_prefix prefix q) e, is_prefix-append prefix rest),
)
