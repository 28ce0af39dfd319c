-- ===== src/Exec/Count.antt =====
-- src/instructions.c: the handlers leave the count of instructions alone, which `cpu_step` keeps
-- and `cpu_run` stops on.
pub mod Accesses
use risc_v_emulator.Prelude.{
  if_same, ℕ, ◌≡◌, refl, arith, Bool, true, false, ◌==◌, if◌then◌else◌, some, none, Option,
}
use risc_v_emulator.Cpu.{Cpu, write_gpr}
use risc_v_emulator.Trap.{take_smode_trap, take_mmode_trap, take_trap, exec_mret, exec_sret}
use risc_v_emulator.Exec.Alu
use risc_v_emulator.Exec.Words.{exec_iw, exec_3b, exec_float}
use risc_v_emulator.Exec.Branch
use risc_v_emulator.Exec.System.{
  exec_csr, exec_ecall, exec_ebreak, exec_wfi, exec_fence, exec_sfencevma,
}
use risc_v_emulator.Exec.Compressed.Quadrant1
use risc_v_emulator.Exec.Compressed.Quadrant1.{exec_c1}
use risc_v_emulator.Exec.Compressed.Memory.{c_addi4spn, c_slli, c_jump_move}
use risc_v_emulator.Decode.{i_type, r_type, b_type, handle_system, count}
use risc_v_emulator.Clint.{clint_tick}

-- The count that an optional hart holds.
abbrev pub count_of : Option Cpu → ℕ → ℕ
count_of none d = d
count_of (some c) d = c.inst_count

pub count_if :
    (b : Bool) (x y : Cpu)
    → (if b then x else y).inst_count ≡ (if b then x.inst_count else y.inst_count)
count_if true x y = refl
count_if false x y = refl

count_of_if :
    (b : Bool) (x y : Option Cpu) (d : ℕ)
    → count_of (if b then x else y) d ≡ (if b then count_of x d else count_of y d)
count_of_if true x y d = refl
count_of_if false x y d = refl

pub write_gpr-count : (c : Cpu) (d v : ℕ) → (write_gpr c d v).inst_count ≡ c.inst_count
write_gpr-count c d v = ground arith

ruleset counted = (count_if, count_of_if, if_same, write_gpr-count)

pub i_type-count : (f : ℕ) (c : Cpu) (i : ℕ) → (i_type f c i).inst_count ≡ c.inst_count
unfolding i_type Alu.exec_addi Alu.exec_slli Alu.exec_slti Alu.exec_sltiu Alu.exec_xori Alu.exec_ori
    Alu.exec_andi Alu.exec_si
i_type-count f c i = simp counted

pub b_type-count : (f : ℕ) (c : Cpu) (i : ℕ) → count_of (b_type f c i) c.inst_count ≡ c.inst_count
unfolding b_type Branch.exec_beq Branch.exec_bne Branch.exec_blt Branch.exec_bge Branch.exec_bltu
    Branch.exec_bgeu
b_type-count f c i = simp counted

pub r_type-count : (f : ℕ) (c : Cpu) (i : ℕ) → count_of (r_type f c i) c.inst_count ≡ c.inst_count
unfolding r_type Alu.exec_add Alu.exec_sltu Alu.exec_xor Alu.exec_srl Alu.exec_or Alu.exec_and
    Alu.exec_mul Alu.exec_div Alu.exec_divu Alu.exec_remu Alu.exec_sub
r_type-count f c i = simp counted

pub exec_iw-count : (c : Cpu) (i : ℕ) → (exec_iw c i).inst_count ≡ c.inst_count
unfolding exec_iw
exec_iw-count c i = simp counted

pub exec_lui-count : (c : Cpu) (i : ℕ) → (Alu.exec_lui c i).inst_count ≡ c.inst_count
unfolding Alu.exec_lui
exec_lui-count c i = simp counted

pub exec_auipc-count : (c : Cpu) (i : ℕ) → (Alu.exec_auipc c i).inst_count ≡ c.inst_count
unfolding Alu.exec_auipc
exec_auipc-count c i = simp counted

pub exec_jal-count : (c : Cpu) (i : ℕ) → (Branch.exec_jal c i).inst_count ≡ c.inst_count
unfolding Branch.exec_jal
exec_jal-count c i = simp counted

pub exec_jalr-count : (c : Cpu) (i : ℕ) → (Branch.exec_jalr c i).inst_count ≡ c.inst_count
unfolding Branch.exec_jalr
exec_jalr-count c i = simp counted

pub exec_fence-count : (c : Cpu) (i : ℕ) → (exec_fence c i).inst_count ≡ c.inst_count
unfolding exec_fence
exec_fence-count c i = simp counted

pub exec_3b-count : (c : Cpu) (i : ℕ) → (exec_3b c i).inst_count ≡ c.inst_count
unfolding exec_3b
exec_3b-count c i = simp counted

pub exec_float-count : (c : Cpu) (i : ℕ) → (exec_float c i).inst_count ≡ c.inst_count
unfolding exec_float
exec_float-count c i = simp counted

exec_csr-count : (c : Cpu) (i : ℕ) → (exec_csr c i).inst_count ≡ c.inst_count
unfolding exec_csr
exec_csr-count c i = simp counted

pub exec_ecall-count : (shl : ℕ) (c : Cpu) (i : ℕ) → (exec_ecall shl c i).inst_count ≡ c.inst_count
unfolding exec_ecall take_trap take_smode_trap take_mmode_trap
exec_ecall-count shl c i = simp counted

exec_sret-count : (c : Cpu) (i : ℕ) → (exec_sret c i).inst_count ≡ c.inst_count
unfolding exec_sret
exec_sret-count c i = simp counted

exec_sfencevma-count : (c : Cpu) (i : ℕ) → (exec_sfencevma c i).inst_count ≡ c.inst_count
unfolding exec_sfencevma
exec_sfencevma-count c i = refl

pub handle_system-count :
    (shl : ℕ) (c : Cpu) (i : ℕ) → (handle_system shl c i).inst_count ≡ c.inst_count
unfolding handle_system exec_ebreak exec_wfi exec_mret
handle_system-count shl c i =
    simp (counted, exec_csr-count, exec_ecall-count, exec_sret-count, exec_sfencevma-count)

c_addiw-count : (c : Cpu) (i : ℕ) → (Quadrant1.c_addiw c i).inst_count ≡ c.inst_count
unfolding Quadrant1.c_addiw
c_addiw-count c i = simp counted

c_lui-count : (c : Cpu) (i : ℕ) → (Quadrant1.c_lui c i).inst_count ≡ c.inst_count
unfolding Quadrant1.c_lui
c_lui-count c i = simp counted

c_alu-count : (c : Cpu) (i : ℕ) → (Quadrant1.c_alu c i).inst_count ≡ c.inst_count
unfolding Quadrant1.c_alu
c_alu-count c i = simp counted

pub exec_c1-count : (c : Cpu) (i : ℕ) → (exec_c1 c i).inst_count ≡ c.inst_count
unfolding exec_c1 Quadrant1.c_addi Quadrant1.c_li Quadrant1.c_j Quadrant1.c_beqz Quadrant1.c_bnez
exec_c1-count c i = simp (counted, c_addiw-count, c_lui-count, c_alu-count)

pub c_addi4spn-count : (c : Cpu) (i : ℕ) → (c_addi4spn c i).inst_count ≡ c.inst_count
unfolding c_addi4spn
c_addi4spn-count c i = simp counted

pub c_slli-count : (c : Cpu) (i : ℕ) → (c_slli c i).inst_count ≡ c.inst_count
unfolding c_slli
c_slli-count c i = simp counted

pub c_jump_move-count : (c : Cpu) (i : ℕ) → (c_jump_move c i).inst_count ≡ c.inst_count
unfolding c_jump_move
c_jump_move-count c i = simp counted
