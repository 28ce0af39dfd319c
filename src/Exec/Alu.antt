-- ===== src/Exec/Alu.antt =====
-- src/instructions.c: the handlers of the register and immediate instructions, without their
-- log output. `instr` is the 32-bit instruction word.
pub mod Arithmetic
pub mod Signed
use risc_v_emulator.Prelude.{ℕ, ◌+◌, ◌-◌, ◌*◌, ◌/◌, ◌%◌, ◌^◌, ltb, leb, ◌==◌, if◌then◌else◌, ◌&&◌}
use risc_v_emulator.Prelude.{
  bit_and, bit_or, bit_xor, bits, sext, slt64, sar64, add64, sub64, mul64, u32, u64,
}
use risc_v_emulator.Cpu.{Cpu, put_gpr, write_gpr, advance}
use risc_v_emulator.Exec.Fields.{rd, rs1, rs2, funct3, funct7, imm_i, imm_u}

-- The first operand, the second, and `if (rd != 0) gpr[rd] = val; pc += 4`.
abbrev pub x1 : Cpu → ℕ → ℕ
x1 c instr = c.gpr (rs1 instr)

abbrev pub x2 : Cpu → ℕ → ℕ
x2 c instr = c.gpr (rs2 instr)

abbrev pub result : Cpu → ℕ → ℕ → Cpu
result c instr val = advance (write_gpr c (rd instr) val) 4

unfoldable pub exec_addi : Cpu → ℕ → Cpu
exec_addi c instr = result c instr (add64 (x1 c instr) (imm_i instr))

unfoldable pub exec_lui : Cpu → ℕ → Cpu
exec_lui c instr = result c instr (imm_u instr)

unfoldable pub exec_auipc : Cpu → ℕ → Cpu
exec_auipc c instr = result c instr (add64 c.pc (imm_u instr))

unfoldable pub exec_add : Cpu → ℕ → Cpu
exec_add c instr = result c instr (add64 (x1 c instr) (x2 c instr))

unfoldable pub exec_xor : Cpu → ℕ → Cpu
exec_xor c instr = result c instr (bit_xor (x1 c instr) (x2 c instr))

unfoldable pub exec_xori : Cpu → ℕ → Cpu
exec_xori c instr = result c instr (bit_xor (x1 c instr) (imm_i instr))

unfoldable pub exec_sub : Cpu → ℕ → Cpu
exec_sub c instr = result c instr (sub64 (x1 c instr) (x2 c instr))

unfoldable pub exec_sltu : Cpu → ℕ → Cpu
exec_sltu c instr = result c instr (if ltb (x1 c instr) (x2 c instr) then 1 else 0)

-- The product is cut to 32 bits.
unfoldable pub exec_mul : Cpu → ℕ → Cpu
exec_mul c instr = result c instr (mul64 (x1 c instr) (x2 c instr) % 2 ^ 32)

-- The magnitude of a signed pattern, and the pattern of a signed number with that magnitude.
abbrev pub magnitude : ℕ → ℕ
magnitude a = if ltb a (2 ^ 63) then a else 2 ^ 64 - a

abbrev pub negate : ℕ → ℕ
negate a = sub64 0 a

-- `(int64_t)a / (int64_t)b` at `b != 0`, cut towards zero.
abbrev pub sdiv64 : ℕ → ℕ → ℕ
sdiv64 a b =
    let q = magnitude a / magnitude b in
    if ltb a (2 ^ 63)
    then (if ltb b (2 ^ 63) then q else negate q)
    else if ltb b (2 ^ 63)
    then negate q
    else q

-- Where `rs2` is register 0, `rd` is first set to the first operand, unguarded, and `result`
-- stays 0.
unfoldable pub exec_div : Cpu → ℕ → Cpu
exec_div c instr =
    let dividend = x1 c instr in
    let divisor = x2 c instr in
    let c₁ = if rs2 instr == 0 then put_gpr c (rd instr) (x1 c instr) else c in
    result c₁ instr (
      if rs2 instr == 0
      then 0
      else if divisor == 0
      then 2 ^ 64 - 1
      else if dividend == 2 ^ 63 && divisor == 2 ^ 64 - 1
      then dividend
      else sdiv64 dividend divisor)

unfoldable pub exec_slli : Cpu → ℕ → Cpu
exec_slli c instr = result c instr (u64 (x1 c instr * 2 ^ bits instr 20 6))

unfoldable pub exec_slti : Cpu → ℕ → Cpu
exec_slti c instr = result c instr (if slt64 (x1 c instr) (imm_i instr) then 1 else 0)

unfoldable pub exec_sltiu : Cpu → ℕ → Cpu
exec_sltiu c instr = result c instr (if ltb (x1 c instr) (imm_i instr) then 1 else 0)

-- `srli` and `srai`, by the top six bits.
unfoldable pub exec_si : Cpu → ℕ → Cpu
exec_si c instr =
    let shamt = bits instr 20 6 in
    if bits instr 26 6 == 0
    then result c instr (x1 c instr / 2 ^ shamt)
    else if bits instr 26 6 == 16
    then result c instr (sar64 (x1 c instr) shamt)
    else advance c 4

-- `exec_and` and `exec_or` end with `gpr[0] = 0`.
unfoldable pub exec_and : Cpu → ℕ → Cpu
exec_and c instr = put_gpr (result c instr (bit_and (x1 c instr) (x2 c instr))) 0 0

unfoldable pub exec_or : Cpu → ℕ → Cpu
exec_or c instr = put_gpr (result c instr (bit_or (x1 c instr) (x2 c instr))) 0 0

unfoldable pub exec_ori : Cpu → ℕ → Cpu
exec_ori c instr = result c instr (bit_or (x1 c instr) (imm_i instr))

unfoldable pub exec_andi : Cpu → ℕ → Cpu
exec_andi c instr = result c instr (bit_and (x1 c instr) (imm_i instr))

unfoldable pub exec_srl : Cpu → ℕ → Cpu
exec_srl c instr = result c instr (x1 c instr / 2 ^ bits (x2 c instr) 0 6)

unfoldable pub exec_remu : Cpu → ℕ → Cpu
exec_remu c instr = result c instr (if x2 c instr == 0 then x1 c instr else x1 c instr % x2 c instr)

unfoldable pub exec_divu : Cpu → ℕ → Cpu
exec_divu c instr = result c instr (if x2 c instr == 0 then 2 ^ 64 - 1 else x1 c instr / x2 c instr)
