-- ===== src/GdbStub/Registers/Transfer.antt =====
-- The registers survive the transfer to gdb and back.
use nix_redox.Base.{
  ℕ, zero, suc, ◌*◌, ◌/◌, ◌%◌, ◌^◌, Text, true, leb, some, List, [], ◌∷◌, ◌++◌, length,
  length-append, take, drop, All, ◌≡◌, refl, ap, ◌∙◌, arith,
}
use nix_redox.GdbStub.Hex.{hex_char, hex_encode, hex_byte}
use nix_redox.GdbStub.Hex.RoundTrip.{IsByte, length-hex_encode, hex_decode-hex_encode}
use nix_redox.GdbStub.Registers.{
  IntRegisters, to_le_bytes, from_le_bytes, reg64_hex, reg32_hex, int_regs_to_gdb_hex, read_le,
  gdb_hex_to_int_regs,
}

to_le_bytes-IsByte : (n v : ℕ) → All IsByte (to_le_bytes n v)
unfolding to_le_bytes
to_le_bytes-IsByte zero v = tt
to_le_bytes-IsByte (suc n) v = (omega arith, to_le_bytes-IsByte n (v / 256))

length-to_le_bytes : (n v : ℕ) → length (to_le_bytes n v) ≡ n
unfolding to_le_bytes
length-to_le_bytes zero v = refl
length-to_le_bytes (suc n) v = ap suc (length-to_le_bytes n (v / 256))

le32 : (v : ℕ) → from_le_bytes (to_le_bytes 4 v) ≡ v % 2 ^ 32
unfolding to_le_bytes from_le_bytes
le32 v = omega arith

le64 : (v : ℕ) → from_le_bytes (to_le_bytes 8 v) ≡ v % 2 ^ 64
unfolding to_le_bytes from_le_bytes
le64 v = omega arith

split_encoded :
    (bs : List ℕ) (rest : Text)
    → (take (2 * length bs) (hex_encode bs ++ rest) ≡ hex_encode bs)
      × (drop (2 * length bs) (hex_encode bs ++ rest) ≡ rest)
unfolding hex_encode hex_byte
split_encoded [] rest = (refl, refl)
split_encoded (b ∷ bs) rest =
    let (t, d) = split_encoded bs rest in
    rw (double (length bs)) (ap (λ x. hex_char (b / 16) ∷ hex_char (b % 16) ∷ x) t, d)
  where
    double : (n : ℕ) → 2 * suc n ≡ suc (suc (2 * n))
    double n = omega arith

read_encoded :
    (n : ℕ) (bs : List ℕ) (rest : Text)
    → All IsByte bs
    → length bs ≡ n
    → read_le n (hex_encode bs ++ rest) ≡ some (from_le_bytes bs, rest)
unfolding read_le
read_encoded n bs rest h e =
    let (t, d) = split_encoded bs rest in
    rw (← e, enough bs rest, read_le, t, d, hex_decode-hex_encode bs h) refl
  where
    enough :
        (bs : List ℕ) (rest : Text) → leb (2 * length bs) (length (hex_encode bs ++ rest)) ≡ true
    enough bs rest = ground (arith, length-append (hex_encode bs) rest, length-hex_encode bs)

read_reg64 : (v : ℕ) (rest : Text) → read_le 8 (reg64_hex v ++ rest) ≡ some (v % 2 ^ 64, rest)
unfolding reg64_hex
read_reg64 v rest =
    read_encoded 8 (to_le_bytes 8 v) rest (to_le_bytes-IsByte 8 v) (length-to_le_bytes 8 v)
    ∙ ap (λ x. some (x, rest)) (le64 v)

read_reg32 : (v : ℕ) (rest : Text) → read_le 4 (reg32_hex v ++ rest) ≡ some (v % 2 ^ 32, rest)
unfolding reg32_hex
read_reg32 v rest =
    read_encoded 4 (to_le_bytes 4 v) rest (to_le_bytes-IsByte 4 v) (length-to_le_bytes 4 v)
    ∙ ap (λ x. some (x, rest)) (le32 v)

read_zero :
    (rest : Text) → read_le 4 (48 ∷ 48 ∷ 48 ∷ 48 ∷ 48 ∷ 48 ∷ 48 ∷ 48 ∷ rest) ≡ some (0, rest)
unfolding reg32_hex to_le_bytes hex_encode hex_byte
read_zero rest = read_reg32 0 rest

-- What gdb reads and writes back are the registers, of `rflags`, `cs` and `ss` the lower 32 bits.
pub gdb_hex_to_int_regs-int_regs_to_gdb_hex :
    (regs : IntRegisters)
    → gdb_hex_to_int_regs (int_regs_to_gdb_hex regs)
      ≡ some (record {
        r15 = regs.r15 % 2 ^ 64;
        r14 = regs.r14 % 2 ^ 64;
        r13 = regs.r13 % 2 ^ 64;
        r12 = regs.r12 % 2 ^ 64;
        rbp = regs.rbp % 2 ^ 64;
        rbx = regs.rbx % 2 ^ 64;
        r11 = regs.r11 % 2 ^ 64;
        r10 = regs.r10 % 2 ^ 64;
        r9 = regs.r9 % 2 ^ 64;
        r8 = regs.r8 % 2 ^ 64;
        rax = regs.rax % 2 ^ 64;
        rcx = regs.rcx % 2 ^ 64;
        rdx = regs.rdx % 2 ^ 64;
        rsi = regs.rsi % 2 ^ 64;
        rdi = regs.rdi % 2 ^ 64;
        rip = regs.rip % 2 ^ 64;
        cs = regs.cs % 2 ^ 32;
        rflags = regs.rflags % 2 ^ 32;
        rsp = regs.rsp % 2 ^ 64;
        ss = regs.ss % 2 ^ 32;
      })
unfolding gdb_hex_to_int_regs int_regs_to_gdb_hex
gdb_hex_to_int_regs-int_regs_to_gdb_hex regs =
    rw
      (
        read_reg64 regs.rax _,
        read_reg64 regs.rbx _,
        read_reg64 regs.rcx _,
        read_reg64 regs.rdx _,
        read_reg64 regs.rsi _,
        read_reg64 regs.rdi _,
        read_reg64 regs.rbp _,
        read_reg64 regs.rsp _,
        read_reg64 regs.r8 _,
        read_reg64 regs.r9 _,
        read_reg64 regs.r10 _,
        read_reg64 regs.r11 _,
        read_reg64 regs.r12 _,
        read_reg64 regs.r13 _,
        read_reg64 regs.r14 _,
        read_reg64 regs.r15 _,
        read_reg64 regs.rip _,
        read_reg32 regs.rflags _,
        read_reg32 regs.cs _,
        read_reg32 regs.ss _,
      )
      refl
