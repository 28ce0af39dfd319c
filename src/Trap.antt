-- ===== src/Trap.antt =====
-- src/trap.c: entering a trap in S or M mode, and the interrupt check after each instruction;
-- `mret` and `sret` of src/instructions.c, which leave a trap.
pub mod Status
pub mod Return
pub mod Interrupt
pub mod Machine
use risc_v_emulator.Prelude.{ℕ, ◌+◌, ◌-◌, ◌*◌, ◌/◌, ◌%◌, ◌^◌, Bool, true, false, ◌&&◌, ◌||◌, not}
use risc_v_emulator.Prelude.{if◌then◌else◌, ◌==◌, leb, update, bit, bits, set_bit, clear_bit}
use risc_v_emulator.Prelude.{clear_bit_u32, add64, bit_or, u64}
use risc_v_emulator.Cpu.{Cpu, read_csr, write_csr, csr_sstatus, csr_sie, csr_stvec, csr_sepc}
use risc_v_emulator.Cpu.{csr_scause, csr_stval, csr_mstatus, csr_mideleg, csr_mie, csr_mtvec}
use risc_v_emulator.Cpu.{csr_mepc, csr_mcause, csr_mtval, csr_mip}

-- `cause & 0x7fffffff`.
abbrev pub cause_code : ℕ → ℕ
cause_code cause = bits cause 0 31

-- The new pc: `base + (cause << 2)` for an interrupt in vectored mode, else `base`.
abbrev pub vector : ℕ → ℕ → Bool → ℕ
vector tvec cause is_interrupt =
    let base = tvec - tvec % 4 in
    if tvec % 4 == 1 && is_interrupt then add64 base (u64 (cause * 4)) else base

-- SIE goes to SPIE, SIE is cleared, the privilege goes to SPP.
unfoldable pub sstatus_on_trap : ℕ → ℕ → ℕ
sstatus_on_trap sstatus privilege =
    let s = if bit sstatus 1 then set_bit sstatus 5 else clear_bit sstatus 5 in
    let s' = clear_bit s 1 in if privilege == 1 then set_bit (clear_bit s' 8) 8 else clear_bit s' 8

unfoldable pub take_smode_trap : Cpu → ℕ → Bool → Cpu
take_smode_trap c cause is_interrupt =
    let c₁ = write_csr c csr_sepc c.pc in
    let scause = if is_interrupt then 2 ^ 63 + cause_code cause else cause_code cause in
    let c₂ = write_csr c₁ csr_scause scause in
    let c₃ = write_csr c₂ csr_stval 0 in
    let c₄ = write_csr c₃ csr_sstatus (sstatus_on_trap (read_csr c₃ csr_sstatus) c.privilege) in
    let c₅ = record c₄ { privilege = if c.privilege == 1 then c.privilege else 1 } in
    record c₅ { pc = vector (read_csr c₅ csr_stvec) cause is_interrupt }

-- MIE goes to MPIE, MIE is cleared, the privilege goes to MPP. The masks are `unsigned`.
unfoldable pub mstatus_on_trap : ℕ → ℕ → ℕ
mstatus_on_trap mstatus privilege =
    let s = if bit mstatus 3 then set_bit mstatus 7 else clear_bit_u32 mstatus 7 in
    let s' = clear_bit_u32 s 3 in
    bit_or (clear_bit_u32 (clear_bit_u32 s' 12) 11) (privilege % 4 * 2 ^ 11)

-- `shl_1u_63` is the value of the expression `1u << 63`, which C leaves undefined.
module _ (shl_1u_63 : ℕ) where
  unfoldable pub take_mmode_trap : Cpu → ℕ → Bool → Cpu
  take_mmode_trap c cause is_interrupt =
      let c₁ = write_csr c csr_mepc c.pc in
      let mcause = if is_interrupt then bit_or shl_1u_63 (cause_code cause) else cause_code cause in
      let c₂ = write_csr c₁ csr_mcause mcause in
      let c₃ = write_csr c₂ csr_mtval 0 in
      let c₄ = write_csr c₃ csr_mstatus (mstatus_on_trap (read_csr c₃ csr_mstatus) c.privilege) in
      record c₄ { pc = vector (read_csr c₄ csr_mtvec) cause is_interrupt }

  unfoldable pub take_trap : Cpu → ℕ → Bool → Cpu
  unfolding take_smode_trap take_mmode_trap
  take_trap c cause is_interrupt =
      if leb c.privilege 1
      then take_smode_trap c cause is_interrupt
      else take_mmode_trap c cause is_interrupt

-- The interrupt of an M-mode hart: `to_m` and `to_s` are the two causes, `deleg` the delegation
-- bit, `m_on` and `s_on` the enable bits. 0 stands for no interrupt.
m_cause : Bool → Bool → Bool → ℕ → ℕ → ℕ
m_cause deleg m_on s_on to_m to_s =
    if not deleg
    then (if m_on then to_m else 0)
    else (if s_on then to_s else if m_on then to_m else 0)

-- The cause that `check_and_handle_interrupts` selects; 0 for none.
unfoldable pub pending_cause : Cpu → ℕ
unfolding m_cause
pending_cause c =
    let mip = c.csr csr_mip in
    let mie = c.csr csr_mie in
    let sie = c.csr csr_sie in
    let mideleg = c.csr csr_mideleg in
    let s_on = bit (c.csr csr_sstatus) 1 in
    if c.privilege == 3
    then (if bit (c.csr csr_mstatus) 3
        then (if bit mip 11
            then m_cause (bit mideleg 9) (bit mie 11) (s_on && bit sie 9) 11 9
            else if bit mip 7
            then m_cause (bit mideleg 5) (bit mie 7) (s_on && bit sie 5) 7 5
            else if bit mip 3
            then m_cause (bit mideleg 1) (bit mie 3) (s_on && bit sie 1) 3 1
            else 0)
        else 0)
    else if leb c.privilege 1
    then (if c.privilege == 1 && not s_on
        then 0
        else if (bit mip 11 && bit mideleg 9) && bit sie 9
        then 9
        else if bit mip 5 && bit sie 5
        then 5
        else if (bit mip 3 && bit mideleg 1) && bit sie 1
        then 1
        else 0)
    else 0

-- `if (cause == IRQ_M_SOFT || cause == IRQ_S_SOFT) mip &= ~MIP_MSIP`.
abbrev pub ack_soft : Cpu → ℕ → Cpu
ack_soft c cause =
    if cause == 3 || cause == 1
    then record c { csr = update c.csr csr_mip (clear_bit_u32 (c.csr csr_mip) 3) }
    else c

module _ (shl_1u_63 : ℕ) where
  unfoldable pub check_and_handle_interrupts : Cpu → Cpu
  unfolding pending_cause take_smode_trap take_mmode_trap
  check_and_handle_interrupts c =
      let cause = pending_cause c in
      let c' = ack_soft c cause in
      if (cause == 1 || cause == 5) || cause == 9
      then take_smode_trap c' cause true
      else if (cause == 7 || cause == 11) || cause == 3
      then take_mmode_trap shl_1u_63 c' cause true
      else c'

-- MPIE goes to MIE, MPIE is set, MPP is cleared.
unfoldable pub mstatus_on_mret : ℕ → ℕ
mstatus_on_mret mstatus =
    let s = if bit mstatus 7 then set_bit mstatus 3 else clear_bit_u32 mstatus 3 in
    clear_bit_u32 (clear_bit_u32 (set_bit s 7) 12) 11

-- `exec_mret`: MPP goes to the privilege, but its value 2 leaves the privilege as it is.
unfoldable pub exec_mret : Cpu → ℕ → Cpu
exec_mret c instr =
    let mstatus = c.csr csr_mstatus in
    let mpp = bits mstatus 11 2 in
    record c {
      privilege = if mpp == 2 then c.privilege else mpp;
      csr = update c.csr csr_mstatus (mstatus_on_mret mstatus);
      pc = c.csr csr_mepc;
    }

-- SPIE goes to SIE; SPIE and SPP are cleared.
unfoldable pub sstatus_on_sret : ℕ → ℕ
sstatus_on_sret sstatus =
    let s = clear_bit (clear_bit sstatus 8) 1 in
    clear_bit (if bit sstatus 5 then set_bit s 1 else s) 5

-- `exec_sret`: does nothing in U mode or at an odd sepc. Else SPP goes to the privilege.
unfoldable pub exec_sret : Cpu → ℕ → Cpu
exec_sret c instr =
    let sepc = c.csr csr_sepc in
    let sstatus = c.csr csr_sstatus in
    if c.privilege == 0 || sepc % 2 == 1 then c else record c {
      pc = sepc;
      privilege = if bit sstatus 8 then 1 else 0;
      csr = update c.csr csr_sstatus (sstatus_on_sret sstatus);
    }
