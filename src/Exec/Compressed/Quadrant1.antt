-- ===== src/Exec/Compressed/Quadrant1.antt =====
-- src/instructions.c, `exec_c1`: arithmetic, jumps and branches of quadrant 1.
use risc_v_emulator.Prelude.{ℕ, ◌+◌, ◌*◌, ◌/◌, ◌^◌, ◌==◌, if◌then◌else◌, bits, bit_and, bit_or}
use risc_v_emulator.Prelude.{sext, sar64, add64, sub64}
use risc_v_emulator.Cpu.{Cpu, put_gpr, write_gpr, advance}

-- The full register field and the short one, for the registers 8 to 15.
abbrev pub rd_full : ℕ → ℕ
rd_full i = bits i 7 5

abbrev pub rd_short : ℕ → ℕ
rd_short i = bits i 7 3 + 8

abbrev pub rs2_short : ℕ → ℕ
rs2_short i = bits i 2 3 + 8

-- The six-bit immediate: bit 12 above bits 6 to 2. As a shift amount it is not extended.
abbrev pub imm_6 : ℕ → ℕ
imm_6 i = bit_or (bits i 2 5) (bits i 12 1 * 2 ^ 5)

-- The jump offset of `c.j` and of `c.jal`.
abbrev pub imm_c_j : ℕ → ℕ
imm_c_j i =
    bit_or
      (bit_or
        (bit_or
          (bit_or
            (bit_or (bit_or (bit_or (bits i 2 1 * 2 ^ 5) (bits i 3 3 * 2)) (bits i 6 1 * 2 ^ 7))
              (bits i 7 1 * 2 ^ 6))
            (bits i 8 1 * 2 ^ 10))
          (bits i 9 2 * 2 ^ 8))
        (bits i 11 1 * 2 ^ 4))
      (bits i 12 1 * 2 ^ 11)

-- The branch offset of `c.beqz` and `c.bnez`.
abbrev pub imm_c_b : ℕ → ℕ
imm_c_b i =
    bit_or
      (bit_or (bit_or (bit_or (bits i 3 2 * 2) (bits i 10 2 * 2 ^ 3)) (bits i 2 1 * 2 ^ 5))
        (bits i 5 2 * 2 ^ 6))
      (bits i 12 1 * 2 ^ 8)

-- The stack adjustment of `c.addi16sp`.
abbrev pub imm_16sp : ℕ → ℕ
imm_16sp i =
    bit_or
      (bit_or (bit_or (bit_or (bits i 2 1 * 2 ^ 5) (bits i 3 2 * 2 ^ 7)) (bits i 5 1 * 2 ^ 6))
        (bits i 6 1 * 2 ^ 4))
      (bits i 12 1 * 2 ^ 9)

-- `c.addi` and, with a 64-bit sum like it, `c.addiw`.
unfoldable pub c_addi : Cpu → ℕ → Cpu
c_addi c i = advance (write_gpr c (rd_full i) (add64 (c.gpr (rd_full i)) (sext 6 (imm_6 i)))) 2

-- Register 0 makes the word `c.jal`.
unfoldable pub c_addiw : Cpu → ℕ → Cpu
c_addiw c i =
    let c₁ = put_gpr c 1 (add64 c.pc 2) in
    if rd_full i == 0
    then record c₁ { pc = add64 c.pc (sext 12 (imm_c_j i)) }
    else advance (put_gpr c (rd_full i) (add64 (c.gpr (rd_full i)) (sext 6 (imm_6 i)))) 2

unfoldable pub c_li : Cpu → ℕ → Cpu
c_li c i = advance (write_gpr c (rd_full i) (sext 6 (imm_6 i))) 2

-- Register 2 makes the word `c.addi16sp`.
unfoldable pub c_lui : Cpu → ℕ → Cpu
c_lui c i =
    if rd_full i == 2
    then advance (put_gpr c 2 (add64 (c.gpr 2) (sext 10 (imm_16sp i)))) 2
    else advance
        (write_gpr c (rd_full i) (sext 18 (bit_or (bits i 2 5 * 2 ^ 12) (bits i 12 1 * 2 ^ 17)))) 2

-- The new value of the register: `c.srli`, `c.srai`, `c.andi`, and by bits 6 to 5 `c.sub`,
-- `c.addw`, `c.or`, `c.and`.
unfoldable pub c_alu_value : ℕ → ℕ → ℕ → ℕ
c_alu_value i a b =
    if bits i 10 2 == 0
    then a / 2 ^ imm_6 i
    else if bits i 10 2 == 1
    then sar64 a (imm_6 i)
    else if bits i 10 2 == 2
    then bit_and a (sext 6 (imm_6 i))
    else if bits i 5 2 == 0
    then sub64 a b
    else if bits i 5 2 == 1
    then sext 32 (a + b)
    else if bits i 5 2 == 2
    then bit_or a b
    else bit_and a b

unfoldable pub c_alu : Cpu → ℕ → Cpu
c_alu c i =
    advance (put_gpr c (rd_short i) (c_alu_value i (c.gpr (rd_short i)) (c.gpr (rs2_short i)))) 2

unfoldable pub c_j : Cpu → ℕ → Cpu
c_j c i = record c { pc = add64 c.pc (sext 12 (imm_c_j i)) }

unfoldable pub c_beqz : Cpu → ℕ → Cpu
c_beqz c i = record c {
  pc = add64 c.pc (if c.gpr (rd_short i) == 0 then sext 9 (imm_c_b i) else 2);
}

unfoldable pub c_bnez : Cpu → ℕ → Cpu
c_bnez c i = record c {
  pc = add64 c.pc (if c.gpr (rd_short i) == 0 then 2 else sext 9 (imm_c_b i));
}

unfoldable pub exec_c1 : Cpu → ℕ → Cpu
exec_c1 c i =
    let f = bits i 13 3 in
    if f == 0
    then c_addi c i
    else if f == 1
    then c_addiw c i
    else if f == 2
    then c_li c i
    else if f == 3
    then c_lui c i
    else if f == 4
    then c_alu c i
    else if f == 5
    then c_j c i
    else if f == 6
    then c_beqz c i
    else c_bnez c i
