-- ===== src/GdbStub/Packets.antt =====
-- `handle_packet` and `run_stub` of src/gdbstub/src/main.rs.
pub mod Panics
use nix_redox.Base.{
  ℕ, Text, bytes, Bool, true, false, ◌||◌, ◌==◌, Option, none, some, List, [], ◌∷◌, ◌++◌, Result,
  ok, err, if◌then◌else◌,
}
use nix_redox.Base.Slices.{split_once, starts_with, is_empty}
use nix_redox.GdbStub.Hex.{hex_encode, hex_decode, parse_hex_u64, lower_hex}
use nix_redox.GdbStub.Registers.{IntRegisters, int_regs_to_gdb_hex, gdb_hex_to_int_regs}
use nix_redox.GdbStub.Target.{
  Proc, Target, IoError, failed, capacity_overflow, StopReason, to_rsp, read_memory, write_memory,
  insert_breakpoint, remove_breakpoint, continue_exec, single_step,
}

-- What the handler returns, or the panic that ends the stub.
pub data Answer : Type 0 where
  reply : Text → Answer
  panic : Answer

abbrev e01 : Answer
e01 = reply (bytes "E01")

abbrev stopped {ℓ} : {T : Type ℓ} → Result IoError StopReason × T → Answer × T
stopped (ok reason, t) = (reply (to_rsp reason), t)
stopped (err e, t) = (e01, t)

abbrev ok_or_error {ℓ} : {T : Type ℓ} → Text → Result IoError (Unit {0}) × T → Answer × T
ok_or_error code (ok u, t) = (reply (bytes "OK"), t)
ok_or_error code (err e, t) = (reply code, t)

abbrev shown : Result IoError (List ℕ) → Answer
shown (ok found) = reply (hex_encode found)
shown (err failed) = reply (bytes "E14")
shown (err capacity_overflow) = panic

-- The address and the length of `addr,length`.
abbrev range : Option (Text × Text) → Option (ℕ × ℕ)
range none = none
range (some (addr, len)) = elim (parse_hex_u64 addr) [
  | none ↦ none
  | some a ↦ elim (parse_hex_u64 len) [ none ↦ none | some n ↦ some (a, n) ]
]

-- The address of `addr,kind`.
abbrev address : Option (Text × Text) → Option ℕ
address none = none
address (some (addr, kind)) = parse_hex_u64 addr

-- The address and the bytes of `addr,length:XX...`.
abbrev block : Option (Text × Text) → Option (ℕ × List ℕ)
block none = none
block (some (header, hex_data)) = elim (address (split_once 44 header)) [
  | none ↦ none
  | some a ↦ elim (hex_decode hex_data) [ none ↦ none | some found ↦ some (a, found) ]
]

module _ {P : Type 0} (proc : Proc P) where
  abbrev write_registers : Target P → Option IntRegisters → Option IntRegisters → Answer × Target P
  write_registers t none regs = (e01, t)
  write_registers t (some old) none = (e01, t)
  write_registers t (some old) (some regs) =
      let (written, process) = proc.write_regs t.process regs in
      (if written then reply (bytes "OK") else e01, record t { process = process })

  -- `Z0,addr,kind` and `z0,addr,kind`, behind the first two characters.
  abbrev on_breakpoint :
      (Target P → ℕ → Result IoError (Unit {0}) × Target P) → Target P → Text → Answer × Target P
  on_breakpoint act t [] = (panic, t)
  on_breakpoint act t (c ∷ params) = elim (address (split_once 44 params)) [
    | none ↦ (e01, t)
    | some addr ↦ ok_or_error (bytes "E01") (act t addr)
  ]

  abbrev on_z :
      (Target P → ℕ → Result IoError (Unit {0}) × Target P) → Target P → Text → Answer × Target P
  on_z act t [] = (reply [], t)
  on_z act t (kind ∷ rest) = if kind == 48 then on_breakpoint act t rest else (reply [], t)

  abbrev query : Target P → Text → Text
  query t raw =
      if starts_with (bytes "qSupported") raw
      then bytes "PacketSize=4096"
      else if starts_with (bytes "qAttached") raw
      then bytes "1"
      else if starts_with (bytes "qC") raw
      then bytes "QC" ++ lower_hex 15 t.pid
      else []

  abbrev on_read : Target P → Option (ℕ × ℕ) → Answer
  on_read t none = e01
  on_read t (some (addr, len)) = shown (read_memory proc t addr len)

  abbrev on_write : Target P → Option (ℕ × List ℕ) → Answer × Target P
  on_write t none = (e01, t)
  on_write t (some (addr, found)) = ok_or_error (bytes "E14") (write_memory proc t addr found)

  abbrev on_read_registers : Option IntRegisters → Answer
  on_read_registers none = e01
  on_read_registers (some regs) = reply (int_regs_to_gdb_hex regs)

  unfoldable pub handle_packet : Target P → Text → Answer × Target P
  unfolding insert_breakpoint remove_breakpoint continue_exec single_step read_memory write_memory
  handle_packet t [] = (reply [], t)
  handle_packet t (c ∷ params) =
      -- ? g G m M c s Z z H q k D
      if c == 63
      then (reply (bytes "S05"), t)
      else if c == 103
      then (on_read_registers (proc.read_regs t.process), t)
      else if c == 71
      then write_registers t (proc.read_regs t.process) (gdb_hex_to_int_regs params)
      else if c == 109
      then (on_read t (range (split_once 44 params)), t)
      else if c == 77
      then on_write t (block (split_once 58 params))
      else if c == 99
      then stopped (continue_exec proc t)
      else if c == 115
      then stopped (single_step proc t)
      else if c == 90
      then on_z (insert_breakpoint proc) t params
      else if c == 122
      then on_z (remove_breakpoint proc) t params
      else if c == 72
      then (reply (bytes "OK"), t)
      else if c == 113
      then (reply (query t (c ∷ params)), t)
      else if c == 107
      then (reply [], record t { process = proc.kill t.process; exited = true })
      else if c == 68
      then (reply (bytes "OK"), t)
      else (reply [], t)

  abbrev ends_session : Text → Bool
  ends_session [] = false
  ends_session (c ∷ params) = c == 68 || c == 107

  -- The loop over the packets of a session, with a connection that does not fail: the replies that
  -- are sent, the target at the end, and whether the stub panicked.
  unfoldable pub run_stub : Target P → List Text → List Text × Target P × Bool
  unfolding handle_packet
  run_stub t [] = ([], t, false)
  run_stub t (packet ∷ packets) =
      let (answer, t') = handle_packet t packet in
      let (replies, last, panicked) = run_stub t' packets in
      elim answer [
        | panic ↦ ([], t', true)
        | reply response ↦
            if ends_session packet
            then ((if is_empty response then [] else response ∷ []), t', false)
            else if t'.exited
            then (response ∷ [], t', false)
            else (response ∷ replies, last, panicked)
      ]
