-- ===== src/Profile/Scheme/Control.antt =====
-- A command for `.control` that arrives in pieces.
use mathlib.Core.List.{append_assoc, append-nil}
use nix_redox.Base.{
  ℕ, ◌==◌, false, Option, none, some, List, [], ◌∷◌, ◌++◌, length, ok, if◌then◌else◌, ◌≡◌, refl, ap,
  ◌∙◌, arith, Bool-cases, inl, inr,
}
use nix_redox.Base.Strings.{nat_key}
use nix_redox.Base.BTreeMap
use nix_redox.Base.BTreeMap.{BTreeMap}
use nix_redox.Profile.Persistence.{ControlCommand}
use nix_redox.Profile.Handles
use nix_redox.Profile.Handles.{Handle, control, ControlHandle, HandleTable, close}
use nix_redox.Profile.Scheme.{Handler, write, run_command, on_close}

-- The writes of a client, one behind the other.
abbrev pub write_pieces : Handler → ℕ → List (List ℕ) → Handler
write_pieces s id [] = s
write_pieces s id (piece ∷ pieces) = write_pieces (write s id piece).1 id pieces

abbrev pub concat : List (List ℕ) → List ℕ
concat [] = []
concat (piece ∷ pieces) = piece ++ concat pieces

abbrev pub filled : ControlHandle → List ℕ → ControlHandle
filled ch more = record ch { buffer = ch.buffer ++ more }

-- The handlers differ in the buffer of one control handle only.
record Grown (s t : Handler) (id : ℕ) (ch : ControlHandle) : Type 0 where
  daemon_same : t.daemon ≡ s.daemon
  here : BTreeMap.get id t.handles.handles ≡ some (control ch)
  others :
      (j : ℕ)
      → (id == j) ≡ false
      → BTreeMap.get j t.handles.handles ≡ BTreeMap.get j s.handles.handles

write_step :
    (s : Handler) (id : ℕ) (piece : List ℕ) (ch : ControlHandle)
    → BTreeMap.get id s.handles.handles ≡ some (control ch)
    → write s id piece ≡ (
      ok (length piece),
      record s {
        handles = record s.handles {
          handles = BTreeMap.insert id (control (filled ch piece)) s.handles.handles;
        };
      },
    )
unfolding write Handles.write
write_step s id piece ch e = rw (e, write, Handles.write) refl

write-Grown :
    (s : Handler) (id : ℕ) (piece : List ℕ) (ch : ControlHandle)
    → BTreeMap.get id s.handles.handles ≡ some (control ch)
    → Grown s (write s id piece).1 id (filled ch piece)
write-Grown s id piece ch e = rw (write_step s id piece ch e) (record {
  daemon_same = refl;
  here = BTreeMap.get-insert id id (control (filled ch piece)) s.handles.handles ∙ ground arith;
  others =
      λ j n. rw (BTreeMap.get-insert id j (control (filled ch piece)) s.handles.handles, n) refl;
})

write_pieces-Grown :
    (pieces : List (List ℕ)) (s : Handler) (id : ℕ) (ch : ControlHandle)
    → BTreeMap.get id s.handles.handles ≡ some (control ch)
    → Grown s (write_pieces s id pieces) id (filled ch (concat pieces))
write_pieces-Grown [] s id ch e =
    rw (append-nil ch.buffer) (record { daemon_same = refl; here = e; others = λ j n. refl })
write_pieces-Grown (piece ∷ pieces) s id ch e =
    let g = write-Grown s id piece ch e in
    let h = write_pieces-Grown pieces (write s id piece).1 id (filled ch piece) g.here in
    record {
      daemon_same = h.daemon_same ∙ g.daemon_same;
      here =
          h.here
          ∙ ap (λ b. some (control (record ch { buffer = b })))
              (append_assoc ch.buffer piece (concat pieces));
      others = λ j n. h.others j n ∙ g.others j n;
    }

masked :
    (id j : ℕ) (x y : Option Handle)
    → ((id == j) ≡ false → x ≡ y)
    → (if id == j then none else x) ≡ (if id == j then none else y)
masked id j x y h = elim (Bool-cases (id == j)) [ inl t ↦ rw (t) refl | inr n ↦ rw (n) (h n) ]

module _ (parse : List ℕ → Option ControlCommand) where
  -- Writing to a control handle in pieces and closing it carries out the command that the pieces make up
  -- together, once; the handle is gone, and every other handle is as it was.
  pub on_close-write_pieces :
      (pieces : List (List ℕ)) (now : ℕ) (s : Handler) (id j : ℕ) (ch : ControlHandle)
      → BTreeMap.get id s.handles.handles ≡ some (control ch)
      → ((on_close parse now (write_pieces s id pieces) id).daemon
          ≡ run_command parse now s.daemon (some (control (filled ch (concat pieces)))))
        × (BTreeMap.get j (on_close parse now (write_pieces s id pieces) id).handles.handles
            ≡ (if id == j then none else BTreeMap.get j s.handles.handles))
  unfolding on_close close
  on_close-write_pieces pieces now s id j ch e =
      let g = write_pieces-Grown pieces s id ch e in
      (
        rw (g.here, on_close, g.daemon_same) refl,
        BTreeMap.get-remove id j (write_pieces s id pieces).handles.handles
            ∙ masked id j _ _ (g.others j),
      )
