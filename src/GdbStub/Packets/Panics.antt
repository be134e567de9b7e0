-- ===== src/GdbStub/Packets/Panics.antt =====
-- Which packets make the stub panic.
use nix_redox.Base.{
  ℕ, ◌≤◌, ◌^◌, Text, bytes, Bool, true, false, ◌==◌, ==_iff, if◌then◌else◌, Option, none, some,
  List, [], ◌∷◌, Result, ok, err, ◌≡◌, ◌≢◌, ◌⊎◌, inl, inr, refl, arith, Bool-cases, Option-cases,
}
use nix_redox.Base.Slices.{split_once}
use nix_redox.GdbStub.Registers.{IntRegisters, gdb_hex_to_int_regs}
use nix_redox.GdbStub.Target.{
  Proc, Target, IoError, StopReason, read_memory, insert_breakpoint, remove_breakpoint,
  continue_exec, single_step, write_memory,
}
use nix_redox.GdbStub.Packets.{
  Answer, reply, panic, stopped, ok_or_error, range, address, block, write_registers, on_breakpoint,
  on_z, on_read, on_write, on_read_registers, query, handle_packet,
}

-- A read of memory that asks for more bytes than a buffer can have.
abbrev pub TooMuch : Option (ℕ × ℕ) → Type 0
TooMuch found = (addr : ℕ) × ((len : ℕ) × ((found ≡ some (addr, len)) × (2 ^ 63 ≤ len)))

abbrev pub AsksTooMuch : Text → Type 0
AsksTooMuch [] = ⊥
AsksTooMuch (c ∷ params) = (c ≡ 109) × TooMuch (range (split_once 44 params))

module _ {P : Type 0} (proc : Proc P) where
  stopped_calm : (r : Result IoError StopReason × Target P) → (stopped r).0 ≢ panic
  stopped_calm (ok a, t) = ground arith
  stopped_calm (err e, t) = ground arith

  ok_or_error_calm :
      (code : Text) (r : Result IoError (Unit {0}) × Target P) → (ok_or_error code r).0 ≢ panic
  ok_or_error_calm code (ok a, t) = ground arith
  ok_or_error_calm code (err e, t) = ground arith

  on_read_panics : (t : Target P) (m : Option (ℕ × ℕ)) → on_read proc t m ≡ panic → TooMuch m
  unfolding read_memory
  on_read_panics t none e = absurd (ground arith)
  on_read_panics t (some (addr, len)) e =
      (addr, (len, (refl, ground (arith, Option-cases (proc.read_exact t.process addr len)))))

  on_breakpoint_calm :
      (act : Target P → ℕ → Result IoError (Unit {0}) × Target P) (t : Target P) (c : ℕ)
      (params : Text)
      → (on_breakpoint proc act t (c ∷ params)).0 ≢ panic
  on_breakpoint_calm act t c params = elim (Option-cases (address (split_once 44 params))) [
    | inl n ↦ rw (n, on_breakpoint) ground arith
    | inr (addr, e) ↦ rw (e, on_breakpoint) (ok_or_error_calm (bytes "E01") (act t addr))
  ]

  on_z_panics :
      (act : Target P → ℕ → Result IoError (Unit {0}) × Target P) (t : Target P) (params : Text)
      → (on_z proc act t params).0 ≡ panic
      → params ≡ 48 ∷ []
  on_z_panics act t [] e = absurd (ground arith)
  on_z_panics act t (k ∷ []) e = ground (arith, ==_iff k 48)
  on_z_panics act t (k ∷ c ∷ params) e = elim (Bool-cases (k == 48)) [
    | inl same ↦ absurd (on_breakpoint_calm act t c params (rw (same) at e))
    | inr other ↦ absurd (ground arith)
  ]

  write_registers_calm :
      (t : Target P) (old regs : Option IntRegisters) → (write_registers proc t old regs).0 ≢ panic
  write_registers_calm t none regs = ground arith
  write_registers_calm t (some old) none = ground arith
  write_registers_calm t (some old) (some regs) = ground arith

  on_write_calm : (t : Target P) (b : Option (ℕ × List ℕ)) → (on_write proc t b).0 ≢ panic
  on_write_calm t none = ground arith
  on_write_calm t (some (addr, found)) =
      ok_or_error_calm (bytes "E14") (write_memory proc t addr found)

  on_read_registers_calm : (regs : Option IntRegisters) → on_read_registers proc regs ≢ panic
  on_read_registers_calm none = ground arith
  on_read_registers_calm (some regs) = ground arith

  branch :
      (b : Bool) (x y : Answer × Target P)
      → (if b then x else y).0 ≡ panic
      → ((b ≡ true) × (x.0 ≡ panic)) ⊎ (y.0 ≡ panic)
  branch true x y e = inl (refl, e)
  branch false x y e = inr e

  named : (c d : ℕ) (params : Text) → (c == d) ≡ true → params ≡ 48 ∷ [] → c ∷ params ≡ d ∷ 48 ∷ []
  named c d params k e = ground (arith, ==_iff c d)

  abbrev rest_of : Target P → ℕ → Text → Answer × Target P
  rest_of t c params =
      if c == 72
      then (reply (bytes "OK"), t)
      else if c == 113
      then (reply (query proc t (c ∷ params)), t)
      else if c == 107
      then (reply [], record t { process = proc.kill t.process; exited = true })
      else if c == 68
      then (reply (bytes "OK"), t)
      else (reply [], t)

  harmless : (t : Target P) (c : ℕ) (params : Text) → (rest_of t c params).0 ≢ panic
  harmless t c params = ground arith

  -- If a packet makes the stub panic, then it is `Z0` or `z0` with nothing behind, or it reads memory of
  -- at least 2^63 bytes.
  pub handle_packet_panics :
      (t : Target P) (raw : Text)
      → (handle_packet proc t raw).0 ≡ panic
      → (raw ≡ bytes "Z0") ⊎ ((raw ≡ bytes "z0") ⊎ AsksTooMuch raw)
  unfolding handle_packet
  handle_packet_panics t [] e = absurd (ground arith)
  handle_packet_panics t (c ∷ params) e0 = elim (branch (c == 63) _ _ e0) [
    | inl (k, p) ↦ absurd (ground arith)
    | inr e1 ↦ elim (branch (c == 103) _ _ e1) [
      | inl (k, p) ↦ absurd (on_read_registers_calm (proc.read_regs t.process) p)
      | inr e2 ↦ elim (branch (c == 71) _ _ e2) [
        | inl (k, p) ↦
            absurd
              (write_registers_calm t (proc.read_regs t.process) (gdb_hex_to_int_regs params) p)
        | inr e3 ↦ elim (branch (c == 109) _ _ e3) [
          | inl (k, p) ↦
              inr (inr ((==_iff c 109).0 k, on_read_panics t (range (split_once 44 params)) p))
          | inr e4 ↦ elim (branch (c == 77) _ _ e4) [
            | inl (k, p) ↦ absurd (on_write_calm t (block (split_once 58 params)) p)
            | inr e5 ↦ elim (branch (c == 99) _ _ e5) [
              | inl (k, p) ↦ absurd (stopped_calm (continue_exec proc t) p)
              | inr e6 ↦ elim (branch (c == 115) _ _ e6) [
                | inl (k, p) ↦ absurd (stopped_calm (single_step proc t) p)
                | inr e7 ↦ elim (branch (c == 90) _ _ e7) [
                  | inl (k, p) ↦
                      inl (named c 90 params k (on_z_panics (insert_breakpoint proc) t params p))
                  | inr e8 ↦ elim (branch (c == 122) _ _ e8) [
                    | inl (k, p) ↦ inr (
                        inl
                          (named c 122 params k (on_z_panics (remove_breakpoint proc) t params p)))
                    | inr e9 ↦ absurd (harmless t c params e9)
                  ]
                ]
              ]
            ]
          ]
        ]
      ]
    ]
  ]
