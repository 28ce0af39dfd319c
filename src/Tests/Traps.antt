-- ===== src/Tests/Traps.antt =====
-- Traps, interrupts, the translation lookaside buffer and the timer at concrete inputs.
use risc_v_emulator.Prelude.{
  ◌%◌, ◌*◌, ◌/◌, ℕ, ◌+◌, ◌^◌, ◌<◌, ◌≡◌, ◌≢◌, ◌↔◌, refl, arith, true, false, ◌==◌, ◌&&◌, ◌||◌, not,
  ltb, leb, if◌then◌else◌,
}
use risc_v_emulator.Prelude.{some, bit, set_bit, clear_bit, clear_bit_u32, update}
use risc_v_emulator.Cpu.{
  Cpu, csr_mip, csr_sip, csr_sstatus, csr_sepc, csr_scause, csr_stval, csr_mstatus, csr_mepc,
  csr_mcause, csr_mtval,
}
use risc_v_emulator.Trap.{
  take_smode_trap, take_mmode_trap, exec_sret, exec_mret, pending_cause,
  check_and_handle_interrupts,
}
use risc_v_emulator.Trap.Return.{exec_sret-take_smode_trap, exec_mret-take_mmode_trap}
use risc_v_emulator.Trap.Interrupt.{
  ext_ready, timer_ready, soft_ready, is_open, pending_cause_iff, check_takes,
}
use risc_v_emulator.Mmu.Tlb.{load, ok, miss, matches, tlb_lookup, tlb_flush, vpn_of}
use risc_v_emulator.Mmu.Walk.{leaf_result}
use risc_v_emulator.Mmu.Flush.{tlb_lookup-tlb_flush}
use risc_v_emulator.Mmu.Refill.{leaf_result-tlb_lookup}
use risc_v_emulator.Clint.{clint_update_interrupts}
use risc_v_emulator.Clint.Timer.{deadline, clint_update_interrupts_lem}
use risc_v_emulator.Tests.Board.{control, hart, undef}

-- An environment call from U mode and back.
exec_sret-take_smode_trap_example :
    let c' = exec_sret (take_smode_trap hart 8 false) 0x10200073 in
    (c'.pc ≡ 0x80000000)
    × (c'.privilege ≡ 0)
    × (c'.csr csr_sstatus ≡ clear_bit (clear_bit 0 5) 8)
    × (c'.csr 0x344
        ≡ update
            (update
              (update (update control csr_sepc 0x80000000) csr_scause (c'.csr csr_scause))
              csr_stval
              0)
            csr_sstatus
            (c'.csr csr_sstatus)
            0x344)
exec_sret-take_smode_trap_example =
    exec_sret-take_smode_trap hart 8 false 0x10200073 0x344 (omega arith) refl

exec_mret-take_mmode_trap_example :
    let c' = exec_mret (take_mmode_trap (2 ^ 31) hart 8 false) 0x30200073 in
    (c'.pc ≡ 0x80000000)
    × (c'.privilege ≡ 0)
    × (c'.csr csr_mstatus ≡ set_bit (clear_bit_u32 (clear_bit_u32 0 11) 12) 7)
    × (c'.csr 0x344
        ≡ update
            (update
              (update (update control csr_mepc 0x80000000) csr_mcause (c'.csr csr_mcause))
              csr_mtval
              0)
            csr_mstatus
            (c'.csr csr_mstatus)
            0x344)
exec_mret-take_mmode_trap_example =
    exec_mret-take_mmode_trap hart 8 false 0x30200073 (2 ^ 31) 0x344 (omega arith) (omega arith)

pending_cause_iff_example :
    ((pending_cause hart ≡ 9) ↔ ((is_open hart ≡ true) × (ext_ready hart ≡ true)))
    × ((pending_cause hart ≡ 5)
        ↔ ((is_open hart ≡ true) × (ext_ready hart ≡ false) × (timer_ready hart ≡ true)))
    × ((pending_cause hart ≡ 1) ↔ (
        (is_open hart ≡ true)
        × (ext_ready hart ≡ false)
        × (timer_ready hart ≡ false)
        × (soft_ready hart ≡ true)))
pending_cause_iff_example = pending_cause_iff hart (omega arith)

timer_is_pending : pending_cause hart ≢ 0
unfolding pending_cause bit
timer_is_pending h = cc

check_takes_example :
    let c' = check_and_handle_interrupts (2 ^ 31) hart in
    (c'.csr csr_sepc ≡ 0x80000000)
    × (c'.csr csr_scause ≡ 2 ^ 63 + pending_cause hart)
    × (c'.pc ≡ (if 0 % 4 == 1 then (0 / 4 * 4 + 4 * pending_cause hart) % 2 ^ 64 else 0 / 4 * 4))
    × (c'.privilege ≡ 1)
    × (bit (c'.csr csr_sstatus) 1 ≡ false)
    × (bit (c'.csr csr_sstatus) 8 ≡ false)
check_takes_example = check_takes (2 ^ 31) hart (omega arith) timer_is_pending

tlb_lookup-tlb_flush_example : tlb_lookup (tlb_flush hart) 0x1234 load 0 ≡ (miss, tlb_flush hart)
tlb_lookup-tlb_flush_example = tlb_lookup-tlb_flush hart 0x1234 load 0

nothing_matches : (j : ℕ) → j < 64 → matches (hart.tlb j) (vpn_of 0x1234) 0 ≡ false
unfolding matches
nothing_matches j h = refl

-- The leaf after the walk.
abbrev walked : Cpu
walked = (leaf_result undef hart 0x1234 load 0 0x200000df).1

walk_grants : leaf_result undef hart 0x1234 load 0 0x200000df ≡ (some 0x80000234, walked)
unfolding leaf_result bit
walk_grants = refl

leaf_result-tlb_lookup_example : (tlb_lookup walked 0x1234 load 0).0 ≡ ok 0x80000234
unfolding bit
leaf_result-tlb_lookup_example =
    leaf_result-tlb_lookup undef hart walked 0x1234 0x200000df 0x80000234 load refl (omega arith)
      nothing_matches refl walk_grants

clint_update_interrupts_lem_example :
    let c' = clint_update_interrupts hart in
    let tm = bit 2 1 in
    let due = leb (deadline hart) 90 in
    (bit (c'.csr csr_mip) 5
      ≡ (if tm && 5 == 5 then due else ((not tm || due) || ltb 5 32) && bit 0x20 5))
    × (c'.csr csr_sip ≡ (if tm then c'.csr csr_mip else 0))
clint_update_interrupts_lem_example = clint_update_interrupts_lem hart 5
