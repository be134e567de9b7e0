-- ===== src/Profile/Scheme/Listing/Pages.antt =====
-- Where a page of the listing of a profile's root has room, it has every entry from the offset on.
use mathlib.Core.List.{append-nil, append_assoc}
use nix_redox.Base.{
  ℕ, zero, suc, ◌+◌, leb, Text, Bool, true, false, some, List, [], ◌∷◌, ◌++◌, length, drop, ok,
  if◌then◌else◌, ◌≡◌, refl, sym, ap, ◌∙◌, arith, Bool-cases, inl, inr,
}
use nix_redox.Base.Strings.{text_key, nat_key}
use nix_redox.Base.Slices.{is_empty}
use nix_redox.Base.BTreeMap
use nix_redox.Profile.Mapping.{ProfileMapping, list_union_from_manifests}
use nix_redox.Profile.Handles.{dir, DirHandle}
use nix_redox.Profile.Scheme.{Handler}
use nix_redox.Profile.Scheme.Listing.{
  DirentKind, Dirent, control_entry, numbered, top_entries, fill, list_top, getdents,
}

-- The handle is one for the root of a profile, with these entries.
pub record AtTop (s : Handler) (id : ℕ) (entries : List (Text × DirentKind)) : Type 0 where
  pub handle : DirHandle
  pub mapping : ProfileMapping
  pub opened : BTreeMap.get id s.handles.handles ≡ some (dir handle)
  pub named : is_empty handle.profile_name ≡ false
  pub top : handle.subpath ≡ []
  pub mapped : BTreeMap.get handle.profile_name s.daemon.profiles.profiles ≡ some mapping
  pub listed : top_entries (list_union_from_manifests mapping [] s.daemon.manifests) ≡ entries

drop-numbered :
    (start i n : ℕ) (entries : List (Text × DirentKind))
    → drop start (numbered i entries ++ (control_entry n ∷ []))
      ≡ drop start (numbered i entries)
        ++ (if leb start (length entries) then control_entry n ∷ [] else [])
drop-numbered zero i n entries = ground arith
drop-numbered (suc zero) i n [] = ground arith
drop-numbered (suc (suc k)) i n [] = ground arith
drop-numbered (suc k) i n (e ∷ entries) =
    drop-numbered k (i + 1) n entries
    ∙ ap (λ b. drop k (numbered (i + 1) entries) ++ (if b then control_entry n ∷ [] else []))
        (leb-suc k (length entries))
  where
    leb-suc : (a b : ℕ) → leb a b ≡ leb (suc a) (suc b)
    leb-suc a b = ground arith

module _ {B : Type 0} (entry : B → Dirent → Bool × B) (content : B → List Dirent) where
  -- The buffer has room for the entries, one behind the other.
  abbrev pub HasRoom : B → List Dirent → Type 0
  HasRoom buf [] = Unit
  HasRoom buf (e ∷ es) =
      ((entry buf e).0 ≡ true)
      × (content (entry buf e).1 ≡ content buf ++ (e ∷ []))
      × HasRoom (entry buf e).1 es

  fill-HasRoom :
      (buf : B) (es after : List Dirent)
      → HasRoom buf (es ++ after)
      → (content (fill entry buf es) ≡ content buf ++ es) × HasRoom (fill entry buf es) after
  unfolding fill
  fill-HasRoom buf [] after h = (sym (append-nil (content buf)), h)
  fill-HasRoom buf (e ∷ es) after (fits, holds, h) =
      let (c, k) = fill-HasRoom (entry buf e).1 es after h in
      rw (fits) (c ∙ (ap (λ x. x ++ es) holds ∙ append_assoc (content buf) (e ∷ []) es), k)

  top-HasRoom :
      (buf : B) (start : ℕ) (entries : List (Text × DirentKind))
      → HasRoom buf (drop start (numbered 0 entries ++ (control_entry (length entries) ∷ [])))
      → content (list_top entry entries start buf)
        ≡ content buf ++ drop start (numbered 0 entries ++ (control_entry (length entries) ∷ []))
  top-HasRoom buf start entries h =
      let es = drop start (numbered 0 entries) in
      elim (Bool-cases (leb start (length entries))) [
        | inl y ↦
            let all : drop start (numbered 0 entries ++ (control_entry (length entries) ∷ []))
                ≡ es ++ (control_entry (length entries) ∷ []) =
              drop-numbered start 0 (length entries) entries ∙ (rw (y) refl) in
            let (c, (fits, holds, u)) =
              fill-HasRoom buf es (control_entry (length entries) ∷ []) (rw (all) at h) in
            rw (y, all, holds, c)
              (append_assoc (content buf) es (control_entry (length entries) ∷ []))
        | inr n ↦
            let all : drop start (numbered 0 entries ++ (control_entry (length entries) ∷ []))
                ≡ es =
              drop-numbered start 0 (length entries) entries ∙ (rw (n) (append-nil es)) in
            rw (n, all) (fill-HasRoom buf es [] (rw (append-nil es) (rw (all) at h))).0
      ]

  -- At the root of a profile, where the buffer has room for what is left from an offset on, `getdents`
  -- succeeds and puts into the buffer exactly the entries of the union from that offset on and `.control`
  -- behind them; a page that starts behind `.control` is empty.
  pub getdents_pages :
      (s : Handler) (id start : ℕ) (buf : B) (entries : List (Text × DirentKind))
      → AtTop s id entries
      → HasRoom buf (drop start (numbered 0 entries ++ (control_entry (length entries) ∷ [])))
      → (buf' : B) × ((getdents entry s id buf start ≡ ok buf')
          × (content buf'
              ≡ content buf
                ++ drop start (numbered 0 entries ++ (control_entry (length entries) ∷ []))))
  unfolding getdents
  getdents_pages s id start buf entries h room = (
    list_top entry entries start buf,
    (
      rw (h.opened, getdents, h.named, h.mapped, h.top, h.listed) refl,
      top-HasRoom buf start entries room,
    ),
  )
