-- ===== src/Exec/System.antt =====
-- src/instructions.c: the CSR instructions, `ecall`, `ebreak`, `wfi`, the fences.
pub mod Csr
use risc_v_emulator.Prelude.{
  ℕ, Bool, true, false, ◌==◌, if◌then◌else◌, ◌||◌, bits, bit_and, bit_or, not64,
}
use risc_v_emulator.Cpu.{Cpu, put_gpr, write_gpr, write_csr, advance}
use risc_v_emulator.Exec.Fields.{rd, rs1, funct3}
use risc_v_emulator.Trap.{take_trap}
use risc_v_emulator.Mmu.Tlb.{invalidate}

-- `csrrs` and `csrrc` read `rs1` after `rd` was written.
unfoldable pub exec_csr : Cpu → ℕ → Cpu
exec_csr c instr =
    let csr = bits instr 20 12 in
    let old = c.csr csr in
    let c₁ = write_gpr c (rd instr) old in
    let c' =
      if funct3 instr == 1
      then write_gpr (write_csr c csr (c.gpr (rs1 instr))) (rd instr) old
      else if funct3 instr == 2
      then (if rs1 instr == 0 then c₁ else write_csr c₁ csr (bit_or old (c₁.gpr (rs1 instr))))
      else if funct3 instr == 3
      then write_csr c₁ csr (bit_and old (not64 (c₁.gpr (rs1 instr))))
      else if funct3 instr == 5
      then write_csr c₁ csr (rs1 instr)
      else if funct3 instr == 7
      then write_csr c₁ csr (bit_and old (not64 (rs1 instr)))
      else c in
    advance c' 4

-- The trap is entered from the privilege that called.
unfoldable pub exec_ecall : ℕ → Cpu → ℕ → Cpu
exec_ecall shl_1u_63 c instr =
    take_trap shl_1u_63 c (if c.privilege == 0 then 8 else if c.privilege == 1 then 9 else 11) false

unfoldable pub exec_ebreak : Cpu → ℕ → Cpu
exec_ebreak c instr = record c { halted = true }

unfoldable pub exec_wfi : Cpu → ℕ → Cpu
exec_wfi c instr = let c₁ = advance c 4 in record c₁ { halted = true }

unfoldable pub exec_fence : Cpu → ℕ → Cpu
exec_fence c instr = if funct3 instr == 0 || funct3 instr == 1 then advance c 4 else c

-- Both branches of the source clear the three buffers.
unfoldable pub exec_sfencevma : Cpu → ℕ → Cpu
exec_sfencevma c instr =
    let c₁ = record c {
      i_tlb = invalidate c.i_tlb;
      d_tlb = invalidate c.d_tlb;
      tlb = invalidate c.tlb;
    } in
    advance c₁ 4
