-- ===== src/Tests/Runs.antt =====
-- Runs of the hart, machine mode and its interrupts at concrete inputs.
use risc_v_emulator.Prelude.{
  ℕ, ◌^◌, ◌≡◌, ◌↔◌, refl, arith, true, ◌==◌, ◌&&◌, not, if◌then◌else◌, bit, inr,
}
use risc_v_emulator.Cpu.{Cpu, csr_mip, csr_mie}
use risc_v_emulator.Trap.{pending_cause, exec_sret, check_and_handle_interrupts}
use risc_v_emulator.Trap.Machine.{goes_to_s, m_open, pending_cause_m_iff, check-exec_sret}
use risc_v_emulator.Decode.Run.{cpu_run, Ends, cpu_run-Ends}
use risc_v_emulator.Tests.Board.{hart, machine, undef, ram_bus, ram_bus-AllKeep_count}

-- M mode, open to interrupts, with the external interrupt pending; S mode has it delegated.
abbrev m_control : ℕ → ℕ
m_control n =
    if n == 0x300
    then 0x1808
    else if n == 0x344
    then 0x800
    else if n == 0x303
    then 0x200
    else if n == 0x104
    then 0x200
    else if n == 0x100
    then 2
    else 0

abbrev m_hart : Cpu
m_hart = record hart { privilege = 3; csr = m_control }

pending_cause_m_iff_example :
    let c = m_hart in
    let external = bit (c.csr csr_mip) 11 in
    let timer = not external && bit (c.csr csr_mip) 7 in
    let soft = (not external && not (bit (c.csr csr_mip) 7)) && bit (c.csr csr_mip) 3 in
    ((pending_cause c ≡ 9) ↔ (m_open c && (external && goes_to_s c 9) ≡ true))
    × ((pending_cause c ≡ 5) ↔ (m_open c && (timer && goes_to_s c 5) ≡ true))
    × ((pending_cause c ≡ 1) ↔ (m_open c && (soft && goes_to_s c 1) ≡ true))
    × ((pending_cause c ≡ 11)
        ↔ (m_open c && (external && (not (goes_to_s c 9) && bit (c.csr csr_mie) 11)) ≡ true))
    × ((pending_cause c ≡ 7)
        ↔ (m_open c && (timer && (not (goes_to_s c 5) && bit (c.csr csr_mie) 7)) ≡ true))
    × ((pending_cause c ≡ 3)
        ↔ (m_open c && (soft && (not (goes_to_s c 1) && bit (c.csr csr_mie) 3)) ≡ true))
pending_cause_m_iff_example = pending_cause_m_iff m_hart refl

check-exec_sret_example :
    let c' = check_and_handle_interrupts (2 ^ 31) m_hart in
    (c'.privilege ≡ 1)
    × ((exec_sret c' 0x10200073).privilege ≡ 0)
    × ((exec_sret c' 0x10200073).pc ≡ 0x80000000)
unfolding pending_cause bit
check-exec_sret_example = check-exec_sret (2 ^ 31) m_hart 0x10200073 refl refl (inr (inr refl))

-- RAM of zeroes: the first word stops the hart.
cpu_run-Ends_example : Ends (cpu_run undef ram_bus 1002 machine)
cpu_run-Ends_example = cpu_run-Ends undef ram_bus ram_bus-AllKeep_count 1002 machine (omega arith)
