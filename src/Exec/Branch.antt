-- ===== src/Exec/Branch.antt =====
-- src/instructions.c: jumps and branches.
pub mod Encoding
use risc_v_emulator.Prelude.{
  ℕ, ◌+◌, ◌-◌, ◌*◌, ◌/◌, ◌%◌, ◌^◌, Bool, ltb, leb, not, ◌==◌, if◌then◌else◌,
}
use risc_v_emulator.Prelude.{sext, slt64, add64}
use risc_v_emulator.Cpu.{Cpu, write_gpr}
use risc_v_emulator.Exec.Fields.{rd, rs1, rs2, imm_i, imm_b, imm_b', imm_j}
use risc_v_emulator.Exec.Alu.{x1, x2}

-- `pc = taken ? pc + imm : pc + 4`.
abbrev pub branch : Cpu → Bool → ℕ → Cpu
branch c taken imm = record c { pc = add64 c.pc (if taken then imm else 4) }

-- The twenty-one bits are shifted by 12 in an `int32_t`, so that the top one is lost.
unfoldable pub exec_jal : Cpu → ℕ → Cpu
exec_jal c instr =
    let c₁ = write_gpr c (rd instr) (add64 c.pc 4) in
    record c₁ { pc = add64 c₁.pc (sext 20 (imm_j instr)) }

unfoldable pub exec_jalr : Cpu → ℕ → Cpu
exec_jalr c instr =
    let target = add64 (x1 c instr) (imm_i instr) in
    let c₁ = write_gpr c (rd instr) (add64 c.pc 4) in record c₁ { pc = target - target % 2 }

-- The comparison is one of `uint64_t`.
unfoldable pub exec_bge : Cpu → ℕ → Cpu
exec_bge c instr = branch c (leb (x2 c instr) (x1 c instr)) (sext 13 (imm_b' instr))

unfoldable pub exec_bgeu : Cpu → ℕ → Cpu
exec_bgeu c instr = branch c (leb (x2 c instr) (x1 c instr)) (sext 13 (imm_b' instr))

-- The thirteen bits are shifted by 20, so that the top one is lost.
unfoldable pub exec_blt : Cpu → ℕ → Cpu
exec_blt c instr = branch c (slt64 (x1 c instr) (x2 c instr)) (sext 12 (imm_b instr))

unfoldable pub exec_bltu : Cpu → ℕ → Cpu
exec_bltu c instr = branch c (ltb (x1 c instr) (x2 c instr)) (sext 13 (imm_b instr))

unfoldable pub exec_bne : Cpu → ℕ → Cpu
exec_bne c instr = branch c (not (x1 c instr == x2 c instr)) (sext 13 (imm_b instr))

unfoldable pub exec_beq : Cpu → ℕ → Cpu
exec_beq c instr = branch c (x1 c instr == x2 c instr) (sext 13 (imm_b instr))
