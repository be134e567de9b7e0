-- ===== src/GdbStub/Examples.antt =====
-- A process of a few bytes under the stub.
use nix_redox.Base.{
  ℕ, bytes, Bool, ltb, true, false, ◌==◌, if◌then◌else◌, none, some, List, [], ◌∷◌, ok, ◌≡◌, ◌⊎◌,
  refl, arith,
}
use nix_redox.Base.BTreeMap
use nix_redox.GdbStub.Hex.{hex_encode, hex_decode}
use nix_redox.GdbStub.Hex.RoundTrip.{hex_decode-hex_encode}
use nix_redox.GdbStub.Registers.{IntRegisters, int_regs_to_gdb_hex, gdb_hex_to_int_regs}
use nix_redox.GdbStub.Registers.Transfer.{gdb_hex_to_int_regs-int_regs_to_gdb_hex}
use nix_redox.GdbStub.Target.{Proc, Target, insert_breakpoint, remove_breakpoint}
use nix_redox.GdbStub.Target.Breakpoints.{
  HasMemory, IsPatched, insert_breakpoint-IsPatched, remove_breakpoint-IsPatched,
}
use nix_redox.GdbStub.Packets.{panic, handle_packet}
use nix_redox.GdbStub.Packets.Panics.{AsksTooMuch, handle_packet_panics}

-- A process that is its memory, and has no registers to show.
abbrev store_byte : ℕ → ℕ → (ℕ → ℕ) → ℕ → ℕ
store_byte a b memory j = if a == j then b else memory j

abbrev write_bytes : (ℕ → ℕ) → ℕ → List ℕ → Bool × (ℕ → ℕ)
write_bytes memory a [] = (true, memory)
write_bytes memory a (b ∷ bs) = (true, store_byte a b memory)

abbrev plain : Proc (ℕ → ℕ)
plain = record {
  read_regs = λ m. none;
  write_regs = λ m regs. (false, m);
  seek = λ m a. true;
  read_exact = λ m a n. some (m a ∷ []);
  write_all = write_bytes;
  write_trace = λ m flags. (false, m);
  read_event = λ m. (none, m);
  kill = λ m. m;
}

abbrev memory_of : (ℕ → ℕ) → ℕ → ℕ
memory_of m a = m a

-- Only the first 64 addresses are promised.
abbrev low : ℕ → Bool
low a = ltb a 64

plain-HasMemory : HasMemory plain memory_of low
plain-HasMemory = record {
  seeks = λ p a u. refl;
  reads = λ p a u. refl;
  writes = λ p a b u. refl;
  written = λ p a b j u v. refl;
}

-- The program is `nop`s.
abbrev nops : ℕ → ℕ
nops a = 144

abbrev fresh : Target (ℕ → ℕ)
fresh = record { pid = 7; process = nops; breakpoints = []; exited = false }

fresh-IsPatched : IsPatched plain memory_of low nops fresh
unfolding BTreeMap.get
fresh-IsPatched = record { seen = λ a u. refl; kept = λ a o e. absurd (ground arith) }

insert_breakpoint-IsPatched_example :
    ((insert_breakpoint plain fresh 16).0 ≡ ok tt)
    × (IsPatched plain memory_of low nops (insert_breakpoint plain fresh 16).1
        × ((insert_breakpoint plain fresh 16).1.process 16 ≡ 204))
insert_breakpoint-IsPatched_example =
    insert_breakpoint-IsPatched plain memory_of low plain-HasMemory nops fresh 16 refl
      fresh-IsPatched

patched : IsPatched plain memory_of low nops (insert_breakpoint plain fresh 16).1
patched =
    (insert_breakpoint-IsPatched plain memory_of low plain-HasMemory nops fresh 16 refl
      fresh-IsPatched).1.0

remove_breakpoint-IsPatched_example :
    ((remove_breakpoint plain (insert_breakpoint plain fresh 16).1 16).0 ≡ ok tt)
    × (IsPatched plain memory_of low nops
          (remove_breakpoint plain (insert_breakpoint plain fresh 16).1 16).1
        × ((remove_breakpoint plain (insert_breakpoint plain fresh 16).1 16).1.process 16 ≡ 144))
remove_breakpoint-IsPatched_example =
    remove_breakpoint-IsPatched plain memory_of low plain-HasMemory nops
      (insert_breakpoint plain fresh 16).1 16 refl patched

hex_decode-hex_encode_example :
    hex_decode (hex_encode (0 ∷ 171 ∷ 255 ∷ [])) ≡ some (0 ∷ 171 ∷ 255 ∷ [])
hex_decode-hex_encode_example =
    hex_decode-hex_encode (0 ∷ 171 ∷ 255 ∷ []) (ground arith, (ground arith, (ground arith, tt)))

abbrev regs : IntRegisters
regs = record {
  r15 = 15;
  r14 = 14;
  r13 = 13;
  r12 = 12;
  rbp = 1;
  rbx = 2;
  r11 = 11;
  r10 = 10;
  r9 = 9;
  r8 = 8;
  rax = 3;
  rcx = 4;
  rdx = 5;
  rsi = 6;
  rdi = 7;
  rip = 4198400;
  cs = 35;
  rflags = 514;
  rsp = 140737;
  ss = 27;
}

gdb_hex_to_int_regs-int_regs_to_gdb_hex_example :
    gdb_hex_to_int_regs (int_regs_to_gdb_hex regs) ≡ some regs
gdb_hex_to_int_regs-int_regs_to_gdb_hex_example = gdb_hex_to_int_regs-int_regs_to_gdb_hex regs

short_panics : (handle_packet plain fresh (bytes "Z0")).0 ≡ panic
unfolding handle_packet
short_panics = refl

handle_packet_panics_example :
    (bytes "Z0" ≡ bytes "Z0") ⊎ ((bytes "Z0" ≡ bytes "z0") ⊎ AsksTooMuch (bytes "Z0"))
handle_packet_panics_example = handle_packet_panics plain fresh (bytes "Z0") short_panics
