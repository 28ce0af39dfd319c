-- ===== src/Trap/Return.antt =====
-- src/trap.c and the returns of src/instructions.c: a return undoes a trap.
use risc_v_emulator.Prelude.{update, ℕ, ◌%◌, ◌≤◌, ◌<◌, Bool}
use risc_v_emulator.Prelude.{set_bit, clear_bit, clear_bit_u32}
use risc_v_emulator.Prelude.{◌≡◌, ◌≢◌, arith}
use risc_v_emulator.Prelude.Flags.{flags, bit_ext}
use risc_v_emulator.Cpu.{
  Cpu, csr_sstatus, csr_sepc, csr_scause, csr_stval, csr_mstatus, csr_mepc, csr_mcause, csr_mtval,
}
use risc_v_emulator.Trap.{take_smode_trap, take_mmode_trap, exec_mret, exec_sret}
use risc_v_emulator.Trap.{sstatus_on_trap, sstatus_on_sret, mstatus_on_trap, mstatus_on_mret}
use risc_v_emulator.Trap.Status.{
  sstatus_on_trap_bits, sstatus_on_sret_bits, mstatus_on_trap_bits, mstatus_on_mret_bits,
  mpp_on_trap,
}

-- A round trip leaves `sstatus` as it was, but for SPIE and SPP.
sstatus_round : (s p : ℕ) → sstatus_on_sret (sstatus_on_trap s p) ≡ clear_bit (clear_bit s 5) 8
sstatus_round s p =
    bit_ext _ _ λ j. simp (sstatus_on_sret_bits, sstatus_on_trap_bits, flags) (ground arith)

mstatus_round :
    (s p : ℕ)
    → mstatus_on_mret (mstatus_on_trap s p) ≡ set_bit (clear_bit_u32 (clear_bit_u32 s 11) 12) 7
mstatus_round s p = bit_ext _ _ λ j.
    simp (mstatus_on_mret_bits, flags)
      (ground (arith, mstatus_on_trap_bits s p j, mstatus_on_trap_bits s p 7))

module _ (c : Cpu) (cause : ℕ) (irq : Bool) (instr : ℕ) where
  -- `sret` at the end of a handler gives back the pc, the privilege and the interrupt enable of
  -- an even pc in U or S mode; SPIE and SPP are cleared, and no CSR changes but the four that the
  -- trap writes.
  pub exec_sret-take_smode_trap :
      (k : ℕ)
      → c.privilege ≤ 1
      → c.pc % 2 ≡ 0
      → let c' = exec_sret (take_smode_trap c cause irq) instr in
        (c'.pc ≡ c.pc)
        × (c'.privilege ≡ c.privilege)
        × (c'.csr csr_sstatus ≡ clear_bit (clear_bit (c.csr csr_sstatus) 5) 8)
        × (c'.csr k
            ≡ update
                (update
                  (update (update c.csr csr_sepc c.pc) csr_scause (c'.csr csr_scause))
                  csr_stval
                  0)
                csr_sstatus
                (c'.csr csr_sstatus)
                k)
  unfolding exec_sret take_smode_trap
  exec_sret-take_smode_trap k low even = (
    ground arith,
    ground (arith, sstatus_on_trap_bits (c.csr csr_sstatus) c.privilege 8),
    ground (arith, sstatus_round (c.csr csr_sstatus) c.privilege),
    ground arith,
  )

  -- `mret` at the end of a handler gives back the pc and the privilege of U, S and M mode, and
  -- the low half of `mstatus` with MPP cleared and MPIE set; the high half is lost. No CSR
  -- changes but the four that the trap writes.
  pub exec_mret-take_mmode_trap :
      (shl k : ℕ)
      → c.privilege < 4
      → c.privilege ≢ 2
      → let c' = exec_mret (take_mmode_trap shl c cause irq) instr in
        (c'.pc ≡ c.pc)
        × (c'.privilege ≡ c.privilege)
        × (c'.csr csr_mstatus ≡ set_bit (clear_bit_u32 (clear_bit_u32 (c.csr csr_mstatus) 11) 12) 7)
        × (c'.csr k
            ≡ update
                (update
                  (update (update c.csr csr_mepc c.pc) csr_mcause (c'.csr csr_mcause))
                  csr_mtval
                  0)
                csr_mstatus
                (c'.csr csr_mstatus)
                k)
  unfolding exec_mret take_mmode_trap
  exec_mret-take_mmode_trap shl k low legal = (
    ground arith,
    ground (arith, mpp_on_trap (c.csr csr_mstatus) c.privilege),
    ground (arith, mstatus_round (c.csr csr_mstatus) c.privilege),
    ground arith,
  )
