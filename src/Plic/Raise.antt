-- ===== src/Plic/Raise.antt =====
-- src/plic.c, `plic_set_irq`: a device's interrupt on its way to hart 0.
use risc_v_emulator.Prelude.{
  ℕ, ◌≤◌, ◌<◌, ◌≡◌, ◌≢◌, refl, arith, ap, sym, ◌∙◌, true, false, ◌==◌, ltb, leb, lt→ltb, bit,
}
use risc_v_emulator.Cpu.{csr_mip}
use risc_v_emulator.Plic.{
  Board, max_irqs, plic_is_enabled, eligible, best, with_plic, plic_update, plic_set_irq,
}
use risc_v_emulator.Plic.Words.{flag, raise, flag-raise}
use risc_v_emulator.Plic.Select.{wants, best_first}
use risc_v_emulator.Plic.Line.{plic_update-IsSettled}
use risc_v_emulator.Plic.Settled.{enabled_same}

-- What stands between a pending interrupt and hart 0: the number, the enable bit, a claim that is
-- not completed, the threshold.
pub record IsOpen (b : Board) (irq : ℕ) : Type 0 where
  pub range : (1 ≤ irq) × (irq < max_irqs)
  pub enabled : plic_is_enabled b.plic irq 0 ≡ true
  pub unclaimed : flag (b.plic.claimed 0) irq ≡ false
  pub over : b.plic.threshold 0 < b.plic.priority irq

raised : Board → ℕ → Board
raised b irq = with_plic b (record b.plic { pending = raise b.plic.pending irq })

raised_wanted : (b : Board) (irq : ℕ) → IsOpen b irq → wants (raised b irq).plic 0 irq ≡ true
unfolding raised eligible
raised_wanted b irq o =
    let same = enabled_same b.plic (raise b.plic.pending irq) irq in
    let high = lt→ltb (b.plic.threshold 0) (b.plic.priority irq) o.over in
    let up = flag-raise b.plic.pending irq irq in
    let own : irq == irq ≡ true = ground arith in
    rw (up, own, same, o.enabled, o.unclaimed, high) refl

updated_line :
    (b : Board) → best b.plic 0 ≢ 0 → bit (((plic_update 0 b).cpus 0).csr csr_mip) 11 ≡ true
unfolding plic_update
updated_line b h =
    let s = plic_update-IsSettled b in
    s.line_lem ∙ ap (ltb 0) (sym s.recorded) ∙ lt→ltb 0 (best b.plic 0) (ground arith)

-- A device that raises an interrupt of the range for which hart 0's enable bit is set, which the
-- hart has not claimed, and whose priority is above the threshold, makes the external interrupt of
-- hart 0 pending.
pub plic_set_irq-mip :
    (irq : ℕ) (b : Board)
    → IsOpen b irq
    → bit (((plic_set_irq irq true b).cpus 0).csr csr_mip) 11 ≡ true
unfolding plic_set_irq raised
plic_set_irq-mip irq b o =
    let lo : leb 1 irq ≡ true = ground (arith, o.range) in
    let hi = lt→ltb irq max_irqs (o.range.1) in
    let first =
      best_first (raised b irq).plic 0 irq (o.range.0) (o.range.1) (raised_wanted b irq o) in
    rw (lo, hi, o.enabled) (updated_line (raised b irq) (first.0))
