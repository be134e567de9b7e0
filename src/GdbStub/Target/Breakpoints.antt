-- ===== src/GdbStub/Target/Breakpoints.antt =====
-- Breakpoints are patched into the process's memory and taken out again.
use nix_redox.Base.{
  ℕ, Bool, true, ◌==◌, ==_iff, if◌then◌else◌, none, some, [], ◌∷◌, ok, ◌≡◌, refl, ap, ◌∙◌, arith,
  Bool-cases, Option-cases, inl, inr,
}
use nix_redox.Base.Strings.{nat_key}
use nix_redox.Base.BTreeMap
use nix_redox.GdbStub.Target.{Proc, Target, write_memory, insert_breakpoint, remove_breakpoint}

-- The memory of the process at the mapped addresses: there every seek, read and write of one byte
-- succeeds, a read finds the byte, and a write changes it and no other mapped one. Nothing is said of
-- other addresses, where each of the three may fail.
pub record HasMemory {P : Type 0} (proc : Proc P) (byte : P → ℕ → ℕ) (mapped : ℕ → Bool)
    : Type 0 where
  pub seeks : (p : P) (a : ℕ) → mapped a ≡ true → proc.seek p a ≡ true
  pub reads : (p : P) (a : ℕ) → mapped a ≡ true → proc.read_exact p a 1 ≡ some (byte p a ∷ [])
  pub writes : (p : P) (a b : ℕ) → mapped a ≡ true → (proc.write_all p a (b ∷ [])).0 ≡ true
  pub written :
      (p : P) (a b j : ℕ)
      → mapped a ≡ true
      → mapped j ≡ true
      → byte (proc.write_all p a (b ∷ [])).1 j ≡ (if a == j then b else byte p j)

module _ {P : Type 0} (proc : Proc P) (byte : P → ℕ → ℕ) (mapped : ℕ → Bool) where
  -- Over the program's own mapped memory `int3` stands exactly at the breakpoints, and each
  -- breakpoint keeps the byte of the program.
  pub record IsPatched (program : ℕ → ℕ) (t : Target P) : Type 0 where
    pub seen :
        (a : ℕ)
        → mapped a ≡ true
        → byte t.process a ≡ elim (BTreeMap.get a t.breakpoints) [ none ↦ program a | some o ↦ 204 ]
    pub kept : (a o : ℕ) → BTreeMap.get a t.breakpoints ≡ some o → o ≡ program a

  module _ (memory : HasMemory proc byte mapped) where
    write_step :
        (t : Target P) (a b : ℕ)
        → mapped a ≡ true
        → write_memory proc t a (b ∷ [])
          ≡ (ok tt, record t { process = (proc.write_all t.process a (b ∷ [])).1 })
    unfolding write_memory
    write_step t a b u = rw (memory.seeks t.process a u, memory.writes t.process a b u) refl

    insert_step :
        (t : Target P) (a : ℕ)
        → mapped a ≡ true
        → BTreeMap.get a t.breakpoints ≡ none
        → insert_breakpoint proc t a ≡ (
          ok tt,
          record t {
            process = (proc.write_all t.process a (204 ∷ [])).1;
            breakpoints = BTreeMap.insert a (byte t.process a) t.breakpoints;
          },
        )
    unfolding insert_breakpoint BTreeMap.contains_key
    insert_step t a u n =
        rw
          (
            n,
            BTreeMap.contains_key,
            memory.seeks t.process a u,
            memory.reads t.process a u,
            write_step t a 204 u,
          )
          refl

    remove_step :
        (t : Target P) (a o : ℕ)
        → mapped a ≡ true
        → BTreeMap.get a t.breakpoints ≡ some o
        → remove_breakpoint proc t a ≡ (
          ok tt,
          record t {
            process = (proc.write_all t.process a (o ∷ [])).1;
            breakpoints = BTreeMap.remove a t.breakpoints;
          },
        )
    unfolding remove_breakpoint
    remove_step t a o u e =
        rw (e, remove_breakpoint)
          (write_step (record t { breakpoints = BTreeMap.remove a t.breakpoints }) a o u)

    insert_seen :
        (program : ℕ → ℕ) (t : Target P) (a j : ℕ)
        → mapped a ≡ true
        → mapped j ≡ true
        → IsPatched program t
        → byte (proc.write_all t.process a (204 ∷ [])).1 j
          ≡ elim (BTreeMap.get j (BTreeMap.insert a (byte t.process a) t.breakpoints)) [
            | none ↦ program j
            | some o ↦ 204
          ]
    insert_seen program t a j u v h =
        rw
          (
            BTreeMap.get-insert a j (byte t.process a) t.breakpoints,
            memory.written t.process a 204 j u v,
          )
          ground (arith, h.seen j v)

    insert_kept :
        (program : ℕ → ℕ) (t : Target P) (a j o : ℕ)
        → mapped a ≡ true
        → IsPatched program t
        → BTreeMap.get a t.breakpoints ≡ none
        → BTreeMap.get j (BTreeMap.insert a (byte t.process a) t.breakpoints) ≡ some o
        → o ≡ program j
    insert_kept program t a j o u h n e = elim (Bool-cases (a == j)) [
      | inl same ↦
          ground (
            arith,
            BTreeMap.get-insert a j (byte t.process a) t.breakpoints,
            h.seen a u,
            ==_iff a j,
          )
      | inr other ↦
          h.kept j o (rw (BTreeMap.get-insert a j (byte t.process a) t.breakpoints, other) at e)
    ]

    remove_seen :
        (program : ℕ → ℕ) (t : Target P) (a o j : ℕ)
        → mapped a ≡ true
        → mapped j ≡ true
        → IsPatched program t
        → BTreeMap.get a t.breakpoints ≡ some o
        → byte (proc.write_all t.process a (o ∷ [])).1 j
          ≡ elim (BTreeMap.get j (BTreeMap.remove a t.breakpoints)) [
            | none ↦ program j
            | some x ↦ 204
          ]
    remove_seen program t a o j u v h e = elim (Bool-cases (a == j)) [
      | inl same ↦
          rw (BTreeMap.get-remove a j t.breakpoints, memory.written t.process a o j u v, same)
            (h.kept a o e ∙ ap program ((==_iff a j).0 same))
      | inr other ↦
          rw (BTreeMap.get-remove a j t.breakpoints, memory.written t.process a o j u v, other)
            (h.seen j v)
    ]

    remove_kept :
        (program : ℕ → ℕ) (t : Target P) (a j o : ℕ)
        → IsPatched program t
        → BTreeMap.get j (BTreeMap.remove a t.breakpoints) ≡ some o
        → o ≡ program j
    remove_kept program t a j o h e = elim (Bool-cases (a == j)) [
      | inl same ↦ absurd (ground (arith, BTreeMap.get-remove a j t.breakpoints))
      | inr other ↦ h.kept j o (rw (BTreeMap.get-remove a j t.breakpoints, other) at e)
    ]

    -- At a mapped address `insert_breakpoint` succeeds, and keeps mapped memory patched at exactly the
    -- breakpoints; at the given address stands `int3`.
    pub insert_breakpoint-IsPatched :
        (program : ℕ → ℕ) (t : Target P) (a : ℕ)
        → mapped a ≡ true
        → IsPatched program t
        → ((insert_breakpoint proc t a).0 ≡ ok tt)
          × (IsPatched program (insert_breakpoint proc t a).1
              × (byte (insert_breakpoint proc t a).1.process a ≡ 204))
    unfolding insert_breakpoint BTreeMap.contains_key
    insert_breakpoint-IsPatched program t a u h =
        elim (Option-cases (BTreeMap.get a t.breakpoints)) [
          | inr (o, e) ↦ rw (e, BTreeMap.contains_key) (refl, (h, rw (h.seen a u, e) refl))
          | inl n ↦ rw (insert_step t a u n) (
            refl,
            (
              record {
                seen = λ j v. insert_seen program t a j u v h;
                kept = λ j o e. insert_kept program t a j o u h n e;
              },
              rw (memory.written t.process a 204 a u u) ground arith,
            ),
          )
        ]

    -- At a mapped address, so that its one write does not fail, `remove_breakpoint` succeeds, and keeps
    -- mapped memory patched at exactly the breakpoints; at the given address the program's own byte is
    -- back.
    pub remove_breakpoint-IsPatched :
        (program : ℕ → ℕ) (t : Target P) (a : ℕ)
        → mapped a ≡ true
        → IsPatched program t
        → ((remove_breakpoint proc t a).0 ≡ ok tt)
          × (IsPatched program (remove_breakpoint proc t a).1
              × (byte (remove_breakpoint proc t a).1.process a ≡ program a))
    unfolding remove_breakpoint
    remove_breakpoint-IsPatched program t a u h =
        elim (Option-cases (BTreeMap.get a t.breakpoints)) [
          | inl n ↦ rw (n, remove_breakpoint) (refl, (h, rw (h.seen a u, n) refl))
          | inr (o, e) ↦ rw (remove_step t a o u e) (
            refl,
            (
              record {
                seen = λ j v. remove_seen program t a o j u v h e;
                kept = λ j x k. remove_kept program t a j x h k;
              },
              rw (memory.written t.process a o a u u) ground (arith, h.kept a o e),
            ),
          )
        ]
