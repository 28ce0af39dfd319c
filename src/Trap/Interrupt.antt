-- ===== src/Trap/Interrupt.antt =====
-- src/trap.c, `check_and_handle_interrupts`: which interrupt is taken.
use risc_v_emulator.Prelude.{
  ℕ, ◌+◌, ◌*◌, ◌/◌, ◌%◌, if◌then◌else◌, ◌^◌, ◌≤◌, Bool, true, false, ◌&&◌, ◌||◌,
}
use risc_v_emulator.Prelude.{◌==◌, bit}
use risc_v_emulator.Prelude.{◌≡◌, ◌≢◌, ◌⊎◌, ◌↔◌, inl, inr, refl, arith, ◌∙◌}
use risc_v_emulator.Cpu.{
  Cpu, csr_sstatus, csr_sie, csr_mip, csr_mideleg, csr_sepc, csr_scause, csr_stvec,
}
use risc_v_emulator.Trap.{
  take_smode_trap, check_and_handle_interrupts, pending_cause, vector, ack_soft,
}
use risc_v_emulator.Trap.Status.{sstatus_on_trap_bits}

-- Where an interrupt goes: the base, or in the vectored mode four bytes on for each cause.
vector_lem :
    (tvec cause : ℕ)
    → vector tvec cause true
      ≡ (if tvec % 4 == 1 then (tvec / 4 * 4 + 4 * cause) % 2 ^ 64 else tvec / 4 * 4)
vector_lem tvec cause = ground arith

-- What S mode sees: an interrupt is both pending and enabled. The timer is pending by the Sstc
-- bit, the other two by the machine's bit and the delegation.
abbrev pub ext_ready : Cpu → Bool
ext_ready c = (bit (c.csr csr_mip) 11 && bit (c.csr csr_mideleg) 9) && bit (c.csr csr_sie) 9

abbrev pub timer_ready : Cpu → Bool
timer_ready c = bit (c.csr csr_mip) 5 && bit (c.csr csr_sie) 5

abbrev pub soft_ready : Cpu → Bool
soft_ready c = (bit (c.csr csr_mip) 3 && bit (c.csr csr_mideleg) 1) && bit (c.csr csr_sie) 1

-- U mode always takes interrupts, S mode if SIE is set.
abbrev pub is_open : Cpu → Bool
is_open c = c.privilege == 0 || bit (c.csr csr_sstatus) 1

choice : Bool → Bool → Bool → Bool → ℕ
choice false e t s = 0
choice true true t s = 9
choice true false true s = 5
choice true false false true = 1
choice true false false false = 0

choice_iff :
    (o e t s : Bool)
    → ((choice o e t s ≡ 9) ↔ ((o ≡ true) × (e ≡ true)))
      × ((choice o e t s ≡ 5) ↔ ((o ≡ true) × (e ≡ false) × (t ≡ true)))
      × ((choice o e t s ≡ 1) ↔ ((o ≡ true) × (e ≡ false) × (t ≡ false) × (s ≡ true)))
unfolding choice
choice_iff false e t s = ground arith
choice_iff true true t s = ground arith
choice_iff true false true s = ground arith
choice_iff true false false true = ground arith
choice_iff true false false false = ground arith

pending_cause-choice :
    (c : Cpu)
    → c.privilege ≤ 1
    → pending_cause c ≡ choice (is_open c) (ext_ready c) (timer_ready c) (soft_ready c)
unfolding pending_cause choice
pending_cause-choice c low = ground arith

-- Below M mode the external interrupt goes before the timer and the timer before the software
-- interrupt: each cause is selected exactly when it is ready, interrupts are open and none of
-- those before it is ready.
pub pending_cause_iff :
    (c : Cpu)
    → c.privilege ≤ 1
    → ((pending_cause c ≡ 9) ↔ ((is_open c ≡ true) × (ext_ready c ≡ true)))
      × ((pending_cause c ≡ 5)
          ↔ ((is_open c ≡ true) × (ext_ready c ≡ false) × (timer_ready c ≡ true)))
      × ((pending_cause c ≡ 1) ↔ (
          (is_open c ≡ true)
          × (ext_ready c ≡ false)
          × (timer_ready c ≡ false)
          × (soft_ready c ≡ true)))
pending_cause_iff c low = rw (pending_cause-choice c low) (choice_iff _ _ _ _)

pending_cause_values :
    (c : Cpu)
    → c.privilege ≤ 1
    → (pending_cause c ≡ 0)
      ⊎ ((pending_cause c ≡ 1) ⊎ ((pending_cause c ≡ 5) ⊎ (pending_cause c ≡ 9)))
unfolding pending_cause
pending_cause_values c low = ground arith

-- S mode with SIE clear takes nothing.
pending_cause_closed :
    (c : Cpu) → c.privilege ≡ 1 → bit (c.csr csr_sstatus) 1 ≡ false → pending_cause c ≡ 0
unfolding pending_cause
pending_cause_closed c s off = ground arith

module _ (shl : ℕ) where
  check_none : (c : Cpu) → pending_cause c ≡ 0 → check_and_handle_interrupts shl c ≡ c
  unfolding check_and_handle_interrupts
  check_none c h = rw h refl

  pub check_some :
      (c : Cpu) (k : ℕ)
      → pending_cause c ≡ k
      → (k ≡ 1) ⊎ ((k ≡ 5) ⊎ (k ≡ 9))
      → check_and_handle_interrupts shl c ≡ take_smode_trap (ack_soft c k) k true
  unfolding check_and_handle_interrupts
  check_some c k h (inl e) = rw (h, e) refl
  check_some c k h (inr (inl e)) = rw (h, e) refl
  check_some c k h (inr (inr e)) = rw (h, e) refl

  -- Below M mode a selected interrupt is taken in S mode: the old pc goes to sepc, the cause with
  -- the interrupt bit to scause, SIE is clear, and the next pc is the base of stvec, moved by four
  -- times the cause in the vectored mode.
  pub check_takes :
      (c : Cpu)
      → c.privilege ≤ 1
      → pending_cause c ≢ 0
      → let c' = check_and_handle_interrupts shl c in
        (c'.csr csr_sepc ≡ c.pc)
        × (c'.csr csr_scause ≡ 2 ^ 63 + pending_cause c)
        × (c'.pc ≡ (
            if c.csr csr_stvec % 4 == 1
            then (c.csr csr_stvec / 4 * 4 + 4 * pending_cause c) % 2 ^ 64
            else c.csr csr_stvec / 4 * 4))
        × (c'.privilege ≡ 1)
        × (bit (c'.csr csr_sstatus) 1 ≡ false)
        × (bit (c'.csr csr_sstatus) 8 ≡ (c.privilege == 1))
  unfolding take_smode_trap
  check_takes c low some_cause = elim (pending_cause_values c low) [
    | inl e ↦ absurd (some_cause e)
    | inr e ↦ rw (check_some c (pending_cause c) refl e) (
      ground arith,
      ground arith,
      (let at : (take_smode_trap (ack_soft c (pending_cause c)) (pending_cause c) true).pc
              ≡ vector (c.csr csr_stvec) (pending_cause c) true =
            ground arith in
          at ∙ vector_lem (c.csr csr_stvec) (pending_cause c)),
      ground arith,
      ground (arith, sstatus_on_trap_bits (c.csr csr_sstatus) c.privilege 1),
      ground (arith, sstatus_on_trap_bits (c.csr csr_sstatus) c.privilege 8),
    )
  ]

  -- The check takes one interrupt at most until the handler opens interrupts again: made twice in
  -- a row it does what it does once.
  pub check_twice :
      (c : Cpu)
      → c.privilege ≤ 1
      → check_and_handle_interrupts shl (check_and_handle_interrupts shl c)
        ≡ check_and_handle_interrupts shl c
  check_twice c low = elim (pending_cause_values c low) [
    | inl e ↦ rw (check_none c e) (check_none c e)
    | inr e ↦
        let t = check_takes c low (ground arith) in
        check_none (check_and_handle_interrupts shl c)
          (pending_cause_closed (check_and_handle_interrupts shl c) t.3 t.4)
  ]
