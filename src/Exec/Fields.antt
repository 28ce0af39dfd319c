-- ===== src/Exec/Fields.antt =====
-- The register numbers and immediates of an instruction word, as the handlers of
-- src/instructions.c extract them.
use risc_v_emulator.Prelude.{ℕ, ◌*◌, ◌^◌, bits, sext, bit_or}

abbrev pub rd : ℕ → ℕ
rd i = bits i 7 5

abbrev pub rs1 : ℕ → ℕ
rs1 i = bits i 15 5

abbrev pub rs2 : ℕ → ℕ
rs2 i = bits i 20 5

abbrev pub funct3 : ℕ → ℕ
funct3 i = bits i 12 3

abbrev pub funct7 : ℕ → ℕ
funct7 i = bits i 25 7

-- `((int32_t)imm12 << 20) >> 20` of the upper twelve bits.
abbrev pub imm_i : ℕ → ℕ
imm_i i = sext 12 (bits i 20 12)

-- `(imm_25_31 << 5) | imm_7_11`.
abbrev pub imm_s : ℕ → ℕ
imm_s i = sext 12 (bit_or (bits i 25 7 * 2 ^ 5) (bits i 7 5))

-- `instruction & 0xFFFFF000`, as an `int32_t`.
abbrev pub imm_u : ℕ → ℕ
imm_u i = sext 32 (bits i 12 20 * 2 ^ 12)

-- The thirteen bits of a branch offset, joined in the order of `exec_bne` and `exec_beq`.
abbrev pub imm_b : ℕ → ℕ
imm_b i =
    bit_or (bit_or (bit_or (bits i 31 1 * 2 ^ 12) (bits i 25 6 * 2 ^ 5)) (bits i 8 4 * 2))
      (bits i 7 1 * 2 ^ 11)

-- In the order of `exec_bge` and `exec_bgeu`.
abbrev pub imm_b' : ℕ → ℕ
imm_b' i =
    bit_or (bit_or (bit_or (bits i 7 1 * 2 ^ 11) (bits i 8 4 * 2)) (bits i 25 6 * 2 ^ 5))
      (bits i 31 1 * 2 ^ 12)

-- The twenty-one bits of a jump offset, as `exec_jal` joins them.
abbrev pub imm_j : ℕ → ℕ
imm_j i =
    bit_or (bit_or (bit_or (bits i 31 1 * 2 ^ 20) (bits i 12 8 * 2 ^ 12)) (bits i 20 1 * 2 ^ 11))
      (bits i 21 10 * 2)
