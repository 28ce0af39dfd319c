-- ===== src/Trap/Machine.antt =====
-- src/trap.c: the interrupts of M mode, and the two functions that nothing calls, `do_mret` and
-- `should_delegate_to_smode`.
use risc_v_emulator.Prelude.{
  ℕ, ◌%◌, Bool, true, false, ◌&&◌, ◌||◌, not, ◌==◌, if◌then◌else◌, bit, bits, ◌≡◌, ◌≢◌, ◌⊎◌, ◌↔◌,
  refl, arith,
}
use risc_v_emulator.Cpu.{
  Cpu, csr_sstatus, csr_sie, csr_mip, csr_mie, csr_mideleg, csr_mstatus, csr_mepc, read_csr,
  write_csr,
}
use risc_v_emulator.Trap.{
  pending_cause, m_cause, mstatus_on_mret, exec_mret, exec_sret, take_smode_trap,
  check_and_handle_interrupts,
}
use risc_v_emulator.Trap.Status.{sstatus_on_trap_bits}
use risc_v_emulator.Trap.Interrupt.{check_some}

-- `should_delegate_to_smode`.
unfoldable pub should_delegate_to_smode : Cpu → ℕ → Bool
should_delegate_to_smode c cause =
    if (cause == 1 || cause == 5) || cause == 9
    then true
    else if cause == 7
    then bit (c.csr csr_mideleg) 5
    else if cause == 11
    then bit (c.csr csr_mideleg) 9
    else if cause == 3
    then bit (c.csr csr_mideleg) 1
    else false

-- `do_mret`: as `exec_mret`, but without its test on the privilege.
unfoldable pub do_mret : Cpu → Cpu
do_mret c =
    let mstatus = read_csr c csr_mstatus in
    let returned = write_csr c csr_mstatus (mstatus_on_mret mstatus) in
    record returned { privilege = bits mstatus 11 2; pc = read_csr returned csr_mepc }

-- `do_mret` is what `mret` does, wherever MPP is not the reserved privilege 2.
pub do_mret-exec_mret :
    (c : Cpu) (instr : ℕ) → bits (c.csr csr_mstatus) 11 2 ≢ 2 → do_mret c ≡ exec_mret c instr
unfolding do_mret exec_mret
do_mret-exec_mret c instr h =
    let other : bits (c.csr csr_mstatus) 11 2 == 2 ≡ false = ground arith in rw other refl

-- S mode has the interrupt of a line: it is delegated, and open in S mode.
abbrev pub goes_to_s : Cpu → ℕ → Bool
goes_to_s c line =
    bit (c.csr csr_mideleg) line && (bit (c.csr csr_sstatus) 1 && bit (c.csr csr_sie) line)

-- M mode is open to interrupts, and has the one of a line.
abbrev pub m_open : Cpu → Bool
m_open c = bit (c.csr csr_mstatus) 3

-- In M mode the first pending line of external, timer and software interrupt is the only one that
-- is looked at. It gives the S-mode cause exactly where it is delegated and open in S mode, and the
-- M-mode cause exactly where it does not go there and is enabled: a disabled line keeps the lines
-- after it out.
pub pending_cause_m_iff :
    (c : Cpu)
    → c.privilege ≡ 3
    → let external = bit (c.csr csr_mip) 11 in
      let timer = not external && bit (c.csr csr_mip) 7 in
      let soft = (not external && not (bit (c.csr csr_mip) 7)) && bit (c.csr csr_mip) 3 in
      ((pending_cause c ≡ 9) ↔ (m_open c && (external && goes_to_s c 9) ≡ true))
      × ((pending_cause c ≡ 5) ↔ (m_open c && (timer && goes_to_s c 5) ≡ true))
      × ((pending_cause c ≡ 1) ↔ (m_open c && (soft && goes_to_s c 1) ≡ true))
      × ((pending_cause c ≡ 11)
          ↔ (m_open c && (external && (not (goes_to_s c 9) && bit (c.csr csr_mie) 11)) ≡ true))
      × ((pending_cause c ≡ 7)
          ↔ (m_open c && (timer && (not (goes_to_s c 5) && bit (c.csr csr_mie) 7)) ≡ true))
      × ((pending_cause c ≡ 3)
          ↔ (m_open c && (soft && (not (goes_to_s c 1) && bit (c.csr csr_mie) 3)) ≡ true))
unfolding pending_cause m_cause
pending_cause_m_iff c m = (
  (λ e. ground arith, λ e. ground arith),
  (λ e. ground arith, λ e. ground arith),
  (λ e. ground arith, λ e. ground arith),
  (λ e. ground arith, λ e. ground arith),
  (λ e. ground arith, λ e. ground arith),
  (λ e. ground arith, λ e. ground arith),
)

-- In M mode an interrupt that goes to S mode is taken there as if it came from U mode: the handler
-- runs in S mode with the pc of M mode in sepc and SPP clear, so that its `sret`, at an even pc, goes on
-- with the code of M mode in U mode.
pub check-exec_sret :
    (shl : ℕ) (c : Cpu) (instr : ℕ)
    → c.privilege ≡ 3
    → c.pc % 2 ≡ 0
    → (pending_cause c ≡ 1) ⊎ ((pending_cause c ≡ 5) ⊎ (pending_cause c ≡ 9))
    → let c' = check_and_handle_interrupts shl c in
      (c'.privilege ≡ 1) × ((exec_sret c' instr).privilege ≡ 0) × ((exec_sret c' instr).pc ≡ c.pc)
unfolding take_smode_trap exec_sret
check-exec_sret shl c instr m even k =
    let spp = sstatus_on_trap_bits (c.csr csr_sstatus) c.privilege 8 in
    rw (check_some shl c (pending_cause c) refl k) (ground arith, ground (arith, spp), ground arith)
