-- ===== src/Plic/Line.antt =====
-- src/plic.c: the interrupt line of hart 0 follows the state of the controller.
use risc_v_emulator.Prelude.{
  ℕ, zero, suc, ◌+◌, ◌-◌, ◌≤◌, ◌≡◌, ◌≢◌, inl, inr, refl, arith, ◌∙◌, ap, sym, Bool, true, false,
  ltb, Bool-cases, update, update_ne, bit,
}
use risc_v_emulator.Prelude.Flags.{bit-set_bit, bit-clear_bit_u32}
use risc_v_emulator.Cpu.{Cpu, csr_mip}
use risc_v_emulator.Plic.{
  Plic, Board, max_irqs, plic_is_enabled, eligible, best, best_loop, with_plic, drive,
  cpu_try_wakeup, plic_update,
}

-- The external interrupt of hart 0 is pending exactly where some interrupt is selected for it, and
-- that one is recorded.
pub record IsSettled (b : Board) : Type 0 where
  pub line_lem : bit ((b.cpus 0).csr csr_mip) 11 ≡ ltb 0 (best b.plic 0)
  pub recorded : b.plic.current_irq 0 ≡ best b.plic 0
  pub signalled : b.plic.irq_pending 0 ≡ ltb 0 (best b.plic 0)

best_loop_cong :
    (p p' : Plic) (n irq top win : ℕ)
    → p'.priority ≡ p.priority
    → ((j : ℕ) → eligible p' 0 j ≡ eligible p 0 j)
    → best_loop p' 0 n irq top win ≡ best_loop p 0 n irq top win
unfolding best_loop
best_loop_cong p p' zero irq top win e h = refl
best_loop_cong p p' (suc n) irq top win e h =
    rw (h irq, e) (best_loop_cong p p' n (irq + 1) _ _ e h)

best_cong :
    (p p' : Plic)
    → p'.priority ≡ p.priority
    → p'.threshold 0 ≡ p.threshold 0
    → ((j : ℕ) → eligible p' 0 j ≡ eligible p 0 j)
    → best p' 0 ≡ best p 0
unfolding best
best_cong p p' e t h = rw t (best_loop_cong p p' (max_irqs - 1) 1 (p.threshold 0) 0 e h)

drive-mip : (high : Bool) (c : Cpu) → bit ((drive high c).csr csr_mip) 11 ≡ high
unfolding drive cpu_try_wakeup
drive-mip true c = bit-set_bit (c.csr csr_mip) 11 11
drive-mip false c = bit-clear_bit_u32 (c.csr csr_mip) 11 11

-- What `plic_update` records of a hart has no part in the choice.
recorded_choice :
    (p : Plic) (current : ℕ → ℕ) (signals : ℕ → Bool)
    → best (record p { current_irq = current; irq_pending = signals }) 0 ≡ best p 0
unfolding eligible plic_is_enabled
recorded_choice p current signals = best_cong p _ refl refl (λ j. refl)

-- An update of hart 0 settles its line, whatever it was.
pub plic_update-IsSettled : (b : Board) → IsSettled (plic_update 0 b)
unfolding plic_update
plic_update-IsSettled b =
    let p = b.plic in
    let same =
      recorded_choice p (update p.current_irq 0 (best p 0))
        (update p.irq_pending 0 (ltb 0 (best p 0))) in
    record {
      line_lem = drive-mip (ltb 0 (best p 0)) (b.cpus 0) ∙ ap (ltb 0) (sym same);
      recorded = sym same;
      signalled = ap (ltb 0) (sym same);
    }

-- A change of the controller that hart 0 does not see.
pub same_for_0 :
    (b : Board) (p' : Plic)
    → p'.priority ≡ b.plic.priority
    → p'.threshold 0 ≡ b.plic.threshold 0
    → p'.current_irq 0 ≡ b.plic.current_irq 0
    → p'.irq_pending 0 ≡ b.plic.irq_pending 0
    → ((j : ℕ) → eligible p' 0 j ≡ eligible b.plic 0 j)
    → IsSettled b
    → IsSettled (with_plic b p')
same_for_0 b p' e t r q h s =
    let k = best_cong b.plic p' e t h in
    record {
      line_lem = rw k s.line_lem;
      recorded = rw (k, r) s.recorded;
      signalled = rw (k, q) s.signalled;
    }

-- An update of another hart leaves that of hart 0 as it was.
pub plic_update_other :
    (b : Board) (cpu_id : ℕ) → 1 ≤ cpu_id → IsSettled b → IsSettled (plic_update cpu_id b)
unfolding plic_update
plic_update_other b cpu_id h s =
    let p = b.plic in
    let apart : cpu_id ≢ 0 = λ e. omega arith in
    let same =
      recorded_choice p (update p.current_irq cpu_id (best p cpu_id))
        (update p.irq_pending cpu_id (ltb 0 (best p cpu_id))) in
    elim (Bool-cases (ltb cpu_id 4)) [
      | inl v ↦ rw v (record {
        line_lem =
            ap (λ (c : Cpu). bit (c.csr csr_mip) 11) (update_ne b.cpus cpu_id 0 _ apart)
            ∙ s.line_lem
            ∙ ap (ltb 0) (sym same);
        recorded = update_ne p.current_irq cpu_id 0 _ apart ∙ s.recorded ∙ sym same;
        signalled = update_ne p.irq_pending cpu_id 0 _ apart ∙ s.signalled ∙ ap (ltb 0) (sym same);
      })
      | inr v ↦ rw v s
    ]
