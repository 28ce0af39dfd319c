-- ===== src/Exec/Zero/Words.antt =====
-- src/instructions.c: the handlers that work on the hart alone, and register 0.
use risc_v_emulator.Prelude.{
  if_same, ℕ, ◌+◌, ◌≡◌, ◌≢◌, refl, arith, Bool, true, false, ◌==◌, ◌&&◌, ◌||◌,
}
use risc_v_emulator.Prelude.{if◌then◌else◌, bits, Bool-cases, inl, inr, some, none, Option}
use risc_v_emulator.Cpu.{Cpu, write_gpr, put_gpr}
use risc_v_emulator.Trap.{take_smode_trap, take_mmode_trap, take_trap, exec_mret, exec_sret}
use risc_v_emulator.Exec.Fields.{rd, rs2, funct3, funct7}
use risc_v_emulator.Exec.Alu
use risc_v_emulator.Exec.Alu.{result, x1}
use risc_v_emulator.Exec.Words.{exec_iw, exec_3b, exec_float}
use risc_v_emulator.Exec.Branch
use risc_v_emulator.Exec.System.{
  exec_csr, exec_ecall, exec_ebreak, exec_wfi, exec_fence, exec_sfencevma,
}
use risc_v_emulator.Exec.Compressed.Quadrant1
use risc_v_emulator.Exec.Compressed.Quadrant1.{exec_c1, rd_full, rd_short}
use risc_v_emulator.Exec.Compressed.Memory.{c_addi4spn, c_slli, c_jump_move}
use risc_v_emulator.Decode.{i_type, r_type, b_type, handle_system}

-- The guarded write.
pub write_gpr-zero : (c : Cpu) (d v : ℕ) → (write_gpr c d v).gpr 0 ≡ c.gpr 0
write_gpr-zero c d v = ground arith

pub put_gpr-zero : (c : Cpu) (d v : ℕ) → d ≢ 0 → (put_gpr c d v).gpr 0 ≡ c.gpr 0
put_gpr-zero c d v h = ground arith

-- The register 0 that an optional hart holds.
abbrev pub zero_of : Option Cpu → ℕ → ℕ
zero_of none d = d
zero_of (some c) d = c.gpr 0

gpr_if : (b : Bool) (x y : Cpu) → (if b then x else y).gpr 0 ≡ (if b then x.gpr 0 else y.gpr 0)
gpr_if true x y = refl
gpr_if false x y = refl

zero_of_if :
    (b : Bool) (x y : Option Cpu) (d : ℕ)
    → zero_of (if b then x else y) d ≡ (if b then zero_of x d else zero_of y d)
zero_of_if true x y d = refl
zero_of_if false x y d = refl

ruleset kept = (gpr_if, zero_of_if, if_same, write_gpr-zero)

exec_si-zero : (c : Cpu) (i : ℕ) → (Alu.exec_si c i).gpr 0 ≡ c.gpr 0
unfolding Alu.exec_si
exec_si-zero c i = simp kept

pub i_type-zero : (f : ℕ) (c : Cpu) (i : ℕ) → (i_type f c i).gpr 0 ≡ c.gpr 0
unfolding i_type Alu.exec_addi Alu.exec_slli Alu.exec_slti Alu.exec_sltiu Alu.exec_xori Alu.exec_ori
    Alu.exec_andi
i_type-zero f c i = simp (kept, exec_si-zero)

pub b_type-zero : (f : ℕ) (c : Cpu) (i : ℕ) → zero_of (b_type f c i) (c.gpr 0) ≡ c.gpr 0
unfolding b_type Branch.exec_beq Branch.exec_bne Branch.exec_blt Branch.exec_bge Branch.exec_bltu
    Branch.exec_bgeu
b_type-zero f c i = simp kept

pub exec_iw-zero : (c : Cpu) (i : ℕ) → (exec_iw c i).gpr 0 ≡ c.gpr 0
unfolding exec_iw
exec_iw-zero c i = simp kept

pub exec_lui-zero : (c : Cpu) (i : ℕ) → (Alu.exec_lui c i).gpr 0 ≡ c.gpr 0
unfolding Alu.exec_lui
exec_lui-zero c i = simp kept

pub exec_auipc-zero : (c : Cpu) (i : ℕ) → (Alu.exec_auipc c i).gpr 0 ≡ c.gpr 0
unfolding Alu.exec_auipc
exec_auipc-zero c i = simp kept

pub exec_jal-zero : (c : Cpu) (i : ℕ) → (Branch.exec_jal c i).gpr 0 ≡ c.gpr 0
unfolding Branch.exec_jal
exec_jal-zero c i = simp kept

pub exec_jalr-zero : (c : Cpu) (i : ℕ) → (Branch.exec_jalr c i).gpr 0 ≡ c.gpr 0
unfolding Branch.exec_jalr
exec_jalr-zero c i = simp kept

pub exec_fence-zero : (c : Cpu) (i : ℕ) → (exec_fence c i).gpr 0 ≡ c.gpr 0
unfolding exec_fence
exec_fence-zero c i = simp kept

-- `div` from register 0 into register 0 is the one that writes it.
exec_div-zero :
    (c : Cpu) (i : ℕ) → (rd i == 0 && rs2 i == 0) ≡ false → (Alu.exec_div c i).gpr 0 ≡ c.gpr 0
unfolding Alu.exec_div
exec_div-zero c i h = simp kept (ground arith)

pub r_type-zero :
    (index : ℕ) (c : Cpu) (i : ℕ)
    → (index == 12 && (rd i == 0 && rs2 i == 0)) ≡ false
    → c.gpr 0 ≡ 0
    → zero_of (r_type index c i) 0 ≡ 0
unfolding r_type Alu.exec_add Alu.exec_sltu Alu.exec_xor Alu.exec_srl Alu.exec_or Alu.exec_and
    Alu.exec_mul Alu.exec_divu Alu.exec_remu Alu.exec_sub
r_type-zero index c i h z = elim (Bool-cases (index == 12)) [
  | inl e ↦ simp (kept, z) (ground (arith, exec_div-zero c i))
  | inr e ↦ simp (kept, z, e)
]

pub exec_3b-zero :
    (c : Cpu) (i : ℕ)
    → ((funct7 i == 0 && funct3 i == 1) && rd i == 0) ≡ false
    → (exec_3b c i).gpr 0 ≡ c.gpr 0
unfolding exec_3b
exec_3b-zero c i h = simp kept (ground arith)

pub exec_float-zero :
    (c : Cpu) (i : ℕ)
    → (((funct7 i == 0x70 || funct7 i == 0x71) && (rs2 i == 0 && funct3 i == 0)) && rd i == 0)
      ≡ false
    → (exec_float c i).gpr 0 ≡ c.gpr 0
unfolding exec_float
exec_float-zero c i h = simp kept (ground arith)

exec_csr-zero : (c : Cpu) (i : ℕ) → (exec_csr c i).gpr 0 ≡ c.gpr 0
unfolding exec_csr
exec_csr-zero c i = simp kept

exec_ecall-zero : (shl : ℕ) (c : Cpu) (i : ℕ) → (exec_ecall shl c i).gpr 0 ≡ c.gpr 0
unfolding exec_ecall take_trap take_smode_trap take_mmode_trap
exec_ecall-zero shl c i = simp kept

exec_sret-zero : (c : Cpu) (i : ℕ) → (exec_sret c i).gpr 0 ≡ c.gpr 0
unfolding exec_sret
exec_sret-zero c i = simp kept

exec_sfencevma-zero : (c : Cpu) (i : ℕ) → (exec_sfencevma c i).gpr 0 ≡ c.gpr 0
unfolding exec_sfencevma
exec_sfencevma-zero c i = refl

pub handle_system-zero : (shl : ℕ) (c : Cpu) (i : ℕ) → (handle_system shl c i).gpr 0 ≡ c.gpr 0
unfolding handle_system exec_ebreak exec_wfi exec_mret
handle_system-zero shl c i =
    simp (kept, exec_csr-zero, exec_ecall-zero, exec_sret-zero, exec_sfencevma-zero)

short_nonzero : (n : ℕ) → n + 8 ≢ 0
short_nonzero n = omega arith

c_addiw-zero : (c : Cpu) (i : ℕ) → (Quadrant1.c_addiw c i).gpr 0 ≡ c.gpr 0
unfolding Quadrant1.c_addiw
c_addiw-zero c i = simp (gpr_if, if_same) (ground arith)

c_lui-zero : (c : Cpu) (i : ℕ) → (Quadrant1.c_lui c i).gpr 0 ≡ c.gpr 0
unfolding Quadrant1.c_lui
c_lui-zero c i = simp kept

c_alu-zero : (c : Cpu) (i : ℕ) → (Quadrant1.c_alu c i).gpr 0 ≡ c.gpr 0
unfolding Quadrant1.c_alu
c_alu-zero c i = put_gpr-zero c (rd_short i) _ (short_nonzero (bits i 7 3))

pub exec_c1-zero : (c : Cpu) (i : ℕ) → (exec_c1 c i).gpr 0 ≡ c.gpr 0
unfolding exec_c1 Quadrant1.c_addi Quadrant1.c_li Quadrant1.c_j Quadrant1.c_beqz Quadrant1.c_bnez
exec_c1-zero c i = simp (kept, c_addiw-zero, c_lui-zero, c_alu-zero)

pub c_addi4spn-zero : (c : Cpu) (i : ℕ) → (c_addi4spn c i).gpr 0 ≡ c.gpr 0
unfolding c_addi4spn
c_addi4spn-zero c i = simp kept (ground arith)

pub c_slli-zero : (c : Cpu) (i : ℕ) → (c_slli c i).gpr 0 ≡ c.gpr 0
unfolding c_slli
c_slli-zero c i = simp kept

pub c_jump_move-zero : (c : Cpu) (i : ℕ) → (c_jump_move c i).gpr 0 ≡ c.gpr 0
unfolding c_jump_move
c_jump_move-zero c i = simp kept (ground arith)
