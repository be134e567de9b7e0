-- ===== src/GdbStub/Registers.antt =====
-- The register file of src/gdbstub/src/regs.rs: Redox's registers in gdb's order and back.
pub mod Transfer
use nix_redox.Base.{
  ℕ, zero, suc, ◌+◌, ◌*◌, ◌/◌, ◌%◌, Text, Option, none, some, and_then, List, [], ◌∷◌, ◌++◌, length,
  take, drop, leb, if◌then◌else◌,
}
use nix_redox.GdbStub.Hex.{hex_byte, hex_encode, hex_decode}

-- `IntRegisters` of the system calls' crate; each register has 64 bits.
pub record IntRegisters : Type 0 where
  pub r15 : ℕ
  pub r14 : ℕ
  pub r13 : ℕ
  pub r12 : ℕ
  pub rbp : ℕ
  pub rbx : ℕ
  pub r11 : ℕ
  pub r10 : ℕ
  pub r9 : ℕ
  pub r8 : ℕ
  pub rax : ℕ
  pub rcx : ℕ
  pub rdx : ℕ
  pub rsi : ℕ
  pub rdi : ℕ
  pub rip : ℕ
  pub cs : ℕ
  pub rflags : ℕ
  pub rsp : ℕ
  pub ss : ℕ

-- `to_le_bytes` of a type of `n` bytes: what the type does not hold is cut off.
unfoldable pub to_le_bytes : ℕ → ℕ → List ℕ
to_le_bytes zero v = []
to_le_bytes (suc n) v = v % 256 ∷ to_le_bytes n (v / 256)

unfoldable pub from_le_bytes : List ℕ → ℕ
from_le_bytes [] = 0
from_le_bytes (b ∷ bs) = b + 256 * from_le_bytes bs

unfoldable pub reg64_hex : ℕ → Text
unfolding to_le_bytes hex_encode
reg64_hex val = hex_encode (to_le_bytes 8 val)

unfoldable pub reg32_hex : ℕ → Text
unfolding to_le_bytes hex_encode
reg32_hex val = hex_encode (to_le_bytes 4 val)

unfoldable pub int_regs_to_gdb_hex : IntRegisters → Text
unfolding reg64_hex reg32_hex
int_regs_to_gdb_hex regs =
    reg64_hex regs.rax
    ++ (reg64_hex regs.rbx
        ++ (reg64_hex regs.rcx
            ++ (reg64_hex regs.rdx
                ++ (reg64_hex regs.rsi
                    ++ (reg64_hex regs.rdi
                        ++ (reg64_hex regs.rbp
                            ++ (reg64_hex regs.rsp
                                ++ (reg64_hex regs.r8
                                    ++ (reg64_hex regs.r9
                                        ++ (reg64_hex regs.r10
                                            ++ (reg64_hex regs.r11
                                                ++ (reg64_hex regs.r12
                                                    ++ (reg64_hex regs.r13
                                                        ++ (reg64_hex regs.r14
                                                            ++ (reg64_hex regs.r15
                                                            ++ (reg64_hex regs.rip
                                                            ++ (reg32_hex regs.rflags
                                                            ++ (reg32_hex regs.cs
                                                            ++ (reg32_hex regs.ss
                                                            ++ (reg32_hex 0
                                                            ++ (reg32_hex 0
                                                            ++ (reg32_hex 0
                                                            ++ reg32_hex 0))))))))))))))))))))))

-- The same as `hex_decode` of main.rs.
abbrev pub hex_decode_slice : Text → Option (List ℕ)
hex_decode_slice hex = hex_decode hex

-- `read_le64!` and `read_le32!`: the register at the position, and the text behind it.
unfoldable pub read_le : ℕ → Text → Option (ℕ × Text)
unfolding hex_decode from_le_bytes
read_le n hex =
    if leb (2 * n) (length hex)
    then and_then (hex_decode_slice (take (2 * n) hex))
        (λ out. some (from_le_bytes out, drop (2 * n) hex))
    else none

-- None where the source answers false; its only caller then drops what was read so far.
unfoldable pub gdb_hex_to_int_regs : Text → Option IntRegisters
unfolding read_le
gdb_hex_to_int_regs hex = and_then (read_le 8 hex) (λ (rax, after_rax).
    and_then (read_le 8 after_rax) (λ (rbx, after_rbx).
      and_then (read_le 8 after_rbx) (λ (rcx, after_rcx).
        and_then (read_le 8 after_rcx) (λ (rdx, after_rdx).
          and_then (read_le 8 after_rdx) (λ (rsi, after_rsi).
            and_then (read_le 8 after_rsi) (λ (rdi, after_rdi).
              and_then (read_le 8 after_rdi) (λ (rbp, after_rbp).
                and_then (read_le 8 after_rbp) (λ (rsp, after_rsp).
                  and_then (read_le 8 after_rsp) (λ (r8, after_r8).
                    and_then (read_le 8 after_r8) (λ (r9, after_r9).
                      and_then (read_le 8 after_r9) (λ (r10, after_r10).
                        and_then (read_le 8 after_r10) (λ (r11, after_r11).
                          and_then (read_le 8 after_r11) (λ (r12, after_r12).
                            and_then (read_le 8 after_r12) (λ (r13, after_r13).
                              and_then (read_le 8 after_r13) (λ (r14, after_r14).
                                and_then (read_le 8 after_r14) (λ (r15, after_r15).
                                  and_then (read_le 8 after_r15) (λ (rip, after_rip).
                                    and_then (read_le 4 after_rip) (λ (rflags, after_rflags).
                                      and_then (read_le 4 after_rflags) (λ (cs, after_cs).
                                        and_then (read_le 4 after_cs) (λ (ss, after_ss).
                                          and_then (read_le 4 after_ss) (λ (ds, after_ds).
                                            and_then (read_le 4 after_ds) (λ (es, after_es).
                                              and_then (read_le 4 after_es) (λ (fs, after_fs).
                                                and_then (read_le 4 after_fs) (λ (gs, after_gs).
                                                  some (record {
                                                    r15 = r15;
                                                    r14 = r14;
                                                    r13 = r13;
                                                    r12 = r12;
                                                    rbp = rbp;
                                                    rbx = rbx;
                                                    r11 = r11;
                                                    r10 = r10;
                                                    r9 = r9;
                                                    r8 = r8;
                                                    rax = rax;
                                                    rcx = rcx;
                                                    rdx = rdx;
                                                    rsi = rsi;
                                                    rdi = rdi;
                                                    rip = rip;
                                                    cs = cs;
                                                    rflags = rflags;
                                                    rsp = rsp;
                                                    ss = ss;
                                                  })))))))))))))))))))))))))
