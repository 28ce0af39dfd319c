-- ===== src/Main/Vector.antt =====
-- src/trap_vector.c: the trap handler of the emulator itself, which nothing calls. `none` is a write
-- without a defined result, or a lock that is never had.
use risc_v_emulator.Prelude.{
  ℕ, ◌%◌, ◌^◌, ◌==◌, if◌then◌else◌, Option, none, some, ◌>>=◌, add64, bit, clear_bit, clear_bit_u32,
}
use risc_v_emulator.Cpu.{Cpu, csr_mip, csr_mepc, csr_mcause, read_csr, write_csr}
use risc_v_emulator.Machine.{Machine, set_cpu}
use risc_v_emulator.Mmu.Physical.{phys_write_u32}
use risc_v_emulator.Uart.{Uart}

-- Both kinds of interrupt of the port are cleared, and bit 10 of mip by a 32-bit mask.
unfoldable pub mmio_trap_handler : Cpu → Uart → Option (Cpu × Uart)
mmio_trap_handler c u =
    let received = if bit u.irq_status 0 then clear_bit u.irq_status 0 else u.irq_status in
    let sent = if bit received 1 then clear_bit received 1 else received in
    if u.locked
    then none
    else some
        (write_csr c csr_mip (clear_bit_u32 (c.csr csr_mip) 10), record u { irq_status = sent })

module _ {D : Type 0} where
  -- `syscall_handlers[0x1001]`, the only one that `init_syscall` sets.
  unfoldable pub write_mem : Machine D → Option (Machine D)
  write_mem m = phys_write_u32 (m.cpu.gpr 10) (m.cpu.gpr 11) m

  abbrev return_after : Machine D × Uart → Machine D × Uart
  return_after (m, u) =
      (set_cpu m (let c = m.cpu in record c { pc = add64 (read_csr c csr_mepc) 4 }), u)

  -- The interrupt flag is bit 31, as on a 32-bit machine.
  unfoldable pub trap_handler : Machine D → Uart → Option (Machine D × Uart)
  unfolding mmio_trap_handler write_mem
  trap_handler m u = do
    let mcause : ℕ = m.cpu.csr csr_mcause
    handled ←
        (if bit mcause 31
          then (if mcause % 2 ^ 31 == 10
              then (do (c, u') ← mmio_trap_handler m.cpu u; some (set_cpu m c, u'))
              else some (m, u))
          else if m.cpu.gpr 17 == 0x1001
          then (do m' ← write_mem m; some (m', u))
          else some (m, u))
    some (return_after handled)
