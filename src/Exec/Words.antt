-- ===== src/Exec/Words.antt =====
-- src/instructions.c: the 32-bit instructions, `exec_iw` and `exec_3b`, and the register moves of
-- `exec_float`. A 32-bit result is sign-extended.
use risc_v_emulator.Prelude.{ℕ, ◌+◌, ◌-◌, ◌*◌, ◌/◌, ◌%◌, ◌^◌, ◌==◌, if◌then◌else◌, ◌&&◌, update}
use risc_v_emulator.Prelude.{bits, sext, sar64, u32}
use risc_v_emulator.Cpu.{Cpu, put_gpr, advance}
use risc_v_emulator.Exec.Fields.{rd, rs1, rs2, funct3, funct7, imm_i}
use risc_v_emulator.Exec.Alu.{x1, x2, result}

-- `addiw`, `slliw`, `srliw`, `sraiw`.
unfoldable pub exec_iw : Cpu → ℕ → Cpu
exec_iw c instr =
    let shamt = bits instr 20 5 in
    if funct3 instr == 0
    then result c instr (sext 32 (x1 c instr + imm_i instr))
    else if funct3 instr == 1
    then result c instr (sext 32 (u32 (x1 c instr) * 2 ^ shamt))
    else if funct3 instr == 5 && funct7 instr == 0
    then result c instr (sext 32 (u32 (x1 c instr) / 2 ^ shamt))
    else if funct3 instr == 5 && funct7 instr == 32
    then result c instr (sar64 (sext 32 (x1 c instr)) shamt)
    else advance c 4

-- `sllw` (whose write is not guarded), `remuw`, `divuw`, `addw`, `subw`. Any other word leaves
-- the state as it is, the pc too.
unfoldable pub exec_3b : Cpu → ℕ → Cpu
exec_3b c instr =
    let a = u32 (x1 c instr) in
    let b = u32 (x2 c instr) in
    if funct7 instr == 0 && funct3 instr == 1
    then advance (put_gpr c (rd instr) (sext 32 (a * 2 ^ bits (x2 c instr) 0 5))) 4
    else if funct7 instr == 1 && funct3 instr == 7
    then result c instr (sext 32 (if b == 0 then a else a % b))
    else if funct7 instr == 1 && funct3 instr == 5
    then result c instr (sext 32 (if b == 0 then 2 ^ 32 - 1 else a / b))
    else if funct7 instr == 0 && funct3 instr == 0
    then result c instr (sext 32 (a + b))
    else if funct7 instr == 32 && funct3 instr == 0
    then result c instr (sext 32 (a + 2 ^ 32 - b))
    else c

abbrev put_fgpr : Cpu → ℕ → ℕ → Cpu
put_fgpr c i val = record c { fgpr = update c.fgpr i val }

-- `fmv.x.w`, `fmv.w.x`, `fmv.x.d`, `fmv.d.x`, by `funct7`; no write to `gpr` is guarded.
unfoldable pub exec_float : Cpu → ℕ → Cpu
exec_float c instr =
    let plain = rs2 instr == 0 && funct3 instr == 0 in
    let c' =
      if funct7 instr == 0x70 && plain
      then put_gpr c (rd instr) (sext 32 (c.fgpr (rs1 instr)))
      else if funct7 instr == 0x78 && plain
      then put_fgpr c (rd instr) (u32 (x1 c instr))
      else if funct7 instr == 0x71 && plain
      then put_gpr c (rd instr) (c.fgpr (rs1 instr))
      else if funct7 instr == 0x79 && plain
      then put_fgpr c (rd instr) (x1 c instr)
      else c in
    advance c' 4
