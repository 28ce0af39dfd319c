-- ===== src/Plic/Settled.antt =====
-- src/plic.c: the interrupt line of hart 0 across the events of a run.
use risc_v_emulator.Prelude.{
  ℕ, zero, suc, ◌+◌, ◌≡◌, inl, inr, refl, arith, ◌∙◌, ap, sym, Bool, true, false, ◌==◌, ==_iff,
  if◌then◌else◌, Bool-cases, update, u32, List, [], ◌∷◌,
}
use risc_v_emulator.Plic.{
  Plic, Board, plic_is_enabled, eligible, with_plic, plic_update, plic_set_irq, plic_claim,
  plic_complete,
}
use risc_v_emulator.Plic.Words.{flag, raise, lower, flag-set}
use risc_v_emulator.Plic.Registers.{is_priority, Event, line, reading, writing, handle, run}
use risc_v_emulator.Plic.Line.{IsSettled, plic_update-IsSettled, same_for_0, plic_update_other}
use risc_v_emulator.Plic.{plic_set_enable}
use risc_v_emulator.Plic.Ways.{either_way, plic_read_keeps, plic_write_keeps}
use risc_v_emulator.Plic.Registers.{
  plic_init, setup_irq_affinity, setup_generic_irq_affinity, setup_critical_irq_affinity,
  plic_set_irq_affinity, affinity_loop, generic_loop, init_enables_loop, plic_init_enables,
}

-- An event that is not a store to the priorities.
unfoldable pub IsQuiet : Event → Type 0
IsQuiet (line irq level) = Unit
IsQuiet (reading offset) = Unit
IsQuiet (writing offset value) = is_priority offset ≡ false

unfoldable pub AllQuiet : List Event → Type 0
AllQuiet [] = Unit
AllQuiet (e ∷ es) = IsQuiet e × AllQuiet es

pub enabled_same :
    (p : Plic) (words : ℕ → ℕ) (j : ℕ)
    → plic_is_enabled (record p { pending = words }) j 0 ≡ plic_is_enabled p j 0
unfolding plic_is_enabled
enabled_same p words j = refl

-- The enable registers of another hart.
enable_unseen :
    (p : Plic) (cpu_id j : ℕ) (words : ℕ → ℕ)
    → eligible (record p { enable = update p.enable (suc cpu_id) words }) 0 j ≡ eligible p 0 j
unfolding eligible plic_is_enabled
enable_unseen p cpu_id j words = ground arith

-- A device's level at an interrupt that hart 0 has not enabled.
pending_unseen :
    (p : Plic) (irq : ℕ) (words : ℕ → ℕ) (level : Bool)
    → plic_is_enabled p irq 0 ≡ false
    → ((j : ℕ) → flag words j ≡ (if irq == j then level else flag p.pending j))
    → (j : ℕ) → eligible (record p { pending = words }) 0 j ≡ eligible p 0 j
unfolding eligible
pending_unseen p irq words level off h j =
    let same = enabled_same p words j in
    elim (Bool-cases (irq == j)) [
      | inl e ↦
          rw (same, ap (λ k. plic_is_enabled p k 0) (sym ((==_iff irq j).0 e)) ∙ off) (ground arith)
      | inr e ↦ rw (h j, e, same) refl
    ]

plic_set_irq-IsSettled :
    (irq : ℕ) (level : Bool) (b : Board) → IsSettled b → IsSettled (plic_set_irq irq level b)
unfolding plic_set_irq
plic_set_irq-IsSettled irq level b s =
    let p = b.plic in
    let words = if level then raise p.pending irq else lower p.pending irq in
    let unseen : plic_is_enabled p irq 0 ≡ false
        → IsSettled (with_plic b (record p { pending = words })) =
      λ off.
        same_for_0 b (record p { pending = words }) refl refl refl refl
          (pending_unseen p irq words level off (flag-set level p.pending irq)) s in
    elim (Bool-cases (plic_is_enabled p irq 0)) [
      | inl on ↦ rw on (either_way IsSettled _ _ _ (plic_update-IsSettled _) s)
      | inr off ↦ rw off (either_way IsSettled _ _ _ (unseen off) s)
    ]

-- An enable register, of hart 0 or of another hart.
enable_word-IsSettled :
    (b : Board) (cpu_id : ℕ) (words : ℕ → ℕ)
    → IsSettled b
    → IsSettled (
        plic_update cpu_id
          (with_plic b (record b.plic { enable = update b.plic.enable cpu_id words })))
enable_word-IsSettled b zero words s = plic_update-IsSettled _
enable_word-IsSettled b (suc k) words s =
    plic_update_other _ (suc k) (omega arith)
      (same_for_0 b _ refl refl refl refl (λ j. enable_unseen b.plic k j words) s)

plic_claim-IsSettled : (b : Board) → IsSettled b → IsSettled ((plic_claim 0 b).1)
unfolding plic_claim
plic_claim-IsSettled b s = either_way IsSettled _ _ _ s (plic_update-IsSettled _)

plic_complete-IsSettled : (irq : ℕ) (b : Board) → IsSettled b → IsSettled (plic_complete 0 irq b)
unfolding plic_complete
plic_complete-IsSettled irq b s = either_way IsSettled _ _ _ (plic_update-IsSettled _) s

handle-IsSettled : (e : Event) (b : Board) → IsQuiet e → IsSettled b → IsSettled (handle e b)
unfolding handle IsQuiet
handle-IsSettled (line irq level) b q s = plic_set_irq-IsSettled irq level b s
handle-IsSettled (reading offset) b q s =
    plic_read_keeps IsSettled offset b s (plic_claim-IsSettled b s)
handle-IsSettled (writing offset value) b q s =
    plic_write_keeps IsSettled offset value b s (λ e. absurd (ground (arith, q, e)))
      (λ cpu_id words. enable_word-IsSettled b cpu_id words s) (plic_update-IsSettled _)
      (λ e. plic_complete-IsSettled (u32 value) b s)

plic_set_enable-IsSettled :
    (cpu_id irq : ℕ) (enabled : Bool) (b : Board)
    → IsSettled b
    → IsSettled (plic_set_enable cpu_id irq enabled b)
unfolding plic_set_enable
plic_set_enable-IsSettled cpu_id irq enabled b s =
    either_way IsSettled _ _ _ (enable_word-IsSettled b cpu_id _ s) s

init_enables_loop-IsSettled :
    (left cpu_id : ℕ) (b : Board) → IsSettled b → IsSettled (init_enables_loop left cpu_id b)
unfolding init_enables_loop
init_enables_loop-IsSettled zero cpu_id b s = s
init_enables_loop-IsSettled (suc left) cpu_id b s =
    init_enables_loop-IsSettled left (cpu_id + 1) _
      (plic_set_enable-IsSettled cpu_id 1 true _ (plic_set_enable-IsSettled cpu_id 10 true b s))

affinity_loop-IsSettled :
    (irq target_cpu left cpu_id : ℕ) (b : Board)
    → IsSettled b
    → IsSettled (affinity_loop irq target_cpu left cpu_id b)
unfolding affinity_loop
affinity_loop-IsSettled irq target_cpu zero cpu_id b s = s
affinity_loop-IsSettled irq target_cpu (suc left) cpu_id b s =
    affinity_loop-IsSettled irq target_cpu left (cpu_id + 1) _
      (plic_set_enable-IsSettled irq cpu_id (cpu_id == target_cpu) b s)

plic_set_irq_affinity-IsSettled :
    (irq target_cpu : ℕ) (b : Board)
    → IsSettled b
    → IsSettled (plic_set_irq_affinity irq target_cpu b)
unfolding plic_set_irq_affinity
plic_set_irq_affinity-IsSettled irq target_cpu b s =
    either_way IsSettled _ _ _ (affinity_loop-IsSettled irq target_cpu 4 0 b s) s

generic_loop-IsSettled :
    (left irq : ℕ) (b : Board) → IsSettled b → IsSettled (generic_loop left irq b)
unfolding generic_loop
generic_loop-IsSettled zero irq b s = s
generic_loop-IsSettled (suc left) irq b s =
    generic_loop-IsSettled left (irq + 1) _
      (either_way IsSettled _ _ _ (plic_set_irq_affinity-IsSettled irq 0 b s) s)

setup_irq_affinity-IsSettled : (b : Board) → IsSettled b → IsSettled (setup_irq_affinity b)
unfolding setup_irq_affinity setup_generic_irq_affinity setup_critical_irq_affinity
setup_irq_affinity-IsSettled b s =
    let next = plic_set_irq_affinity-IsSettled in
    generic_loop-IsSettled 1022 1 _ (
      next 1 0 _ (
        next 50 1 _ (
          next 40 2 _
            (next 21 3 _ (next 20 3 _ (next 31 2 _ (next 30 1 _ (next 11 0 _ (next 10 0 _ s)))))))))

-- The first enable of the start settles the line, whatever `mip` holds.
first_enable-IsSettled : (b : Board) → IsSettled (plic_set_enable 0 1 true b)
unfolding plic_set_enable
first_enable-IsSettled b = plic_update-IsSettled _

plic_init-IsSettled : (b : Board) → IsSettled (plic_init b)
unfolding plic_init plic_init_enables init_enables_loop
plic_init-IsSettled b =
    setup_irq_affinity-IsSettled _ (init_enables_loop-IsSettled 3 1 _ (first_enable-IsSettled _))

run-IsSettled : (es : List Event) (b : Board) → AllQuiet es → IsSettled b → IsSettled (run es b)
unfolding run AllQuiet
run-IsSettled [] b q s = s
run-IsSettled (e ∷ es) b q s = run-IsSettled es _ (q.1) (handle-IsSettled e b (q.0) s)

-- From the start of the controller on, whatever the devices raise and lower and whatever the hart
-- loads and stores at its registers, as long as it stores nothing to a priority: the external
-- interrupt of hart 0 is pending exactly where some interrupt is selected for it, and that one
-- is the recorded one.
pub run-plic_init : (es : List Event) (b : Board) → AllQuiet es → IsSettled (run es (plic_init b))
run-plic_init es b q = run-IsSettled es (plic_init b) q (plic_init-IsSettled b)
