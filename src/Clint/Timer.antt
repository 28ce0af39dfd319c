-- ===== src/Clint/Timer.antt =====
-- src/clint.c: the timer interrupt after an update and after a tick.
use risc_v_emulator.Prelude.{ℕ, ◌≡◌, ◌≢◌, refl, arith, ◌∙◌, Bool-cases, inl, inr}
use risc_v_emulator.Prelude.{
  Bool, true, false, ◌==◌, leb, ltb, ◌&&◌, ◌||◌, not, if◌then◌else◌, bit, set_bit, clear_bit_u32,
  add64,
}
use risc_v_emulator.Prelude.Flags.{bit-set_bit, bit-clear_bit_u32}
use risc_v_emulator.Cpu.{Cpu, csr_menvcfg, csr_stimecmp, csr_mcountern, csr_mip, csr_sip}
use risc_v_emulator.Clint.{clint_update_interrupts, clint_tick}

-- The comparison time after an update: the CSR's where Sstc is on.
abbrev pub deadline : Cpu → ℕ
deadline c = if bit (c.csr csr_menvcfg) 63 then c.csr csr_stimecmp else c.clint.stimecmp

deadline_lem :
    (c : Cpu)
    → ((clint_update_interrupts c).clint.stimecmp ≡ deadline c)
      × ((clint_update_interrupts c).clint.mtime ≡ c.clint.mtime)
      × ((clint_update_interrupts c).clint.mtimecmp ≡ c.clint.mtimecmp)
      × ((clint_update_interrupts c).clint.msip ≡ c.clint.msip)
unfolding clint_update_interrupts
deadline_lem c = elim (Bool-cases (bit (c.csr csr_menvcfg) 63)) [
  | inl e ↦ rw e (refl, refl, refl, refl)
  | inr e ↦ rw e (refl, refl, refl, refl)
]

pub mtime_lem : (c : Cpu) → (clint_update_interrupts c).clint.mtime ≡ c.clint.mtime
mtime_lem c = (deadline_lem c).1

pub mtimecmp_lem : (c : Cpu) → (clint_update_interrupts c).clint.mtimecmp ≡ c.clint.mtimecmp
mtimecmp_lem c = (deadline_lem c).2

-- The new word of pending interrupts.
pending_bit :
    (due : Bool) (mip j : ℕ)
    → bit (if due then set_bit mip 5 else clear_bit_u32 mip 5) j
      ≡ (if 5 == j then due else (due || ltb j 32) && bit mip j)
pending_bit true mip j = rw (bit-set_bit mip 5 j) (ground arith)
pending_bit false mip j = rw (bit-clear_bit_u32 mip 5 j) refl

-- With `mcounteren.TM` set, an update makes the supervisor timer interrupt pending exactly where
-- the time has reached the deadline, copies `mip` to `sip`, and keeps the other bits of the low
-- half of `mip`; the upper half it keeps where the deadline is reached and clears where it is
-- not. Without TM it keeps `mip` and `sip`.
pub clint_update_interrupts_lem :
    (c : Cpu) (j : ℕ)
    → let c' = clint_update_interrupts c in
      let tm = bit (c.csr csr_mcountern) 1 in
      let due = leb (deadline c) c.clint.mtime in
      (bit (c'.csr csr_mip) j
        ≡ (if tm && 5 == j then due else ((not tm || due) || ltb j 32) && bit (c.csr csr_mip) j))
      × (c'.csr csr_sip ≡ (if tm then c'.csr csr_mip else c.csr csr_sip))
unfolding clint_update_interrupts
clint_update_interrupts_lem c j = elim (Bool-cases (bit (c.csr csr_mcountern) 1)) [
  | inr off ↦ rw off (refl, refl)
  | inl on ↦ elim (Bool-cases (bit (c.csr csr_menvcfg) 63)) [
    | inl e ↦
        rw (on, e) (pending_bit (leb (c.csr csr_stimecmp) c.clint.mtime) (c.csr csr_mip) j, refl)
    | inr e ↦ rw (on, e) (pending_bit (leb c.clint.stimecmp c.clint.mtime) (c.csr csr_mip) j, refl)
  ]
]

-- A tick by at least one cycle moves the time on, and with TM set raises the supervisor timer
-- interrupt exactly where the new time reaches the deadline.
pub clint_tick_lem :
    (n : ℕ) (c : Cpu)
    → n ≢ 0
    → bit (c.csr csr_mcountern) 1 ≡ true
    → ((clint_tick n c).clint.mtime ≡ add64 c.clint.mtime n)
      × (bit ((clint_tick n c).csr csr_mip) 5 ≡ leb (deadline c) (add64 c.clint.mtime n))
unfolding clint_tick
clint_tick_lem n c h tm =
    let some_cycles : (n == 0) ≡ false = ground arith in
    let t = c.clint in
    let c' : Cpu = record c { clint = record t { mtime = add64 t.mtime n } } in
    rw some_cycles (mtime_lem c', (clint_update_interrupts_lem c' 5).0 ∙ rw tm refl)
