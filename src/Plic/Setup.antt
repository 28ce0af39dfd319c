-- ===== src/Plic/Setup.antt =====
-- src/plic.c: what the affinity tables do and what the start leaves.
use risc_v_emulator.Prelude.{
  ℕ, zero, suc, ◌%◌, ◌+◌, ◌≤◌, ◌≡◌, refl, arith, ap, ◌∙◌, Bool, true, false, ◌==◌, ◌&&◌, ◌||◌, not,
  ltb, leb, if◌then◌else◌, Bool-cases, update, ==_iff, inl, inr,
}
use risc_v_emulator.Prelude.Flags.{zero-bit}
use risc_v_emulator.Plic.{Plic, Board, with_plic, plic_is_enabled, plic_set_enable, plic_update}
use risc_v_emulator.Plic.Words.{flag, raise, lower, flag-set}
use risc_v_emulator.Plic.Registers.{
  fresh, affinity_loop, plic_set_irq_affinity, generic_loop, setup_generic_irq_affinity,
  setup_irq_affinity, setup_critical_irq_affinity, plic_init, plic_init_enables, init_enables_loop,
  plic_is_irq_enabled_on_any,
}

plic_set_enable_out :
    (irq cpu_id : ℕ) (on : Bool) (b : Board) → 4 ≤ irq → plic_set_enable irq cpu_id on b ≡ b
unfolding plic_set_enable
plic_set_enable_out irq cpu_id on b h =
    let off : ltb irq 4 ≡ false = ground arith in
    elim (Bool-cases (leb 1 cpu_id && ltb cpu_id 1023)) [
      | inl e ↦ rw (e, off) refl
      | inr e ↦ rw e refl
    ]

affinity_loop_out :
    (irq target left cpu_id : ℕ) (b : Board) → 4 ≤ irq → affinity_loop irq target left cpu_id b ≡ b
unfolding affinity_loop
affinity_loop_out irq target zero cpu_id b h = refl
affinity_loop_out irq target (suc left) cpu_id b h =
    rw (plic_set_enable_out irq cpu_id (cpu_id == target) b h)
      (affinity_loop_out irq target left (cpu_id + 1) b h)

-- The number of the interrupt stands where that of a hart is wanted, and is none.
plic_set_irq_affinity_out :
    (irq target : ℕ) (b : Board) → 4 ≤ irq → plic_set_irq_affinity irq target b ≡ b
unfolding plic_set_irq_affinity
plic_set_irq_affinity_out irq target b h =
    elim (Bool-cases ((leb 1 irq && ltb irq 1023) && ltb target 4)) [
      | inl e ↦ rw e (affinity_loop_out irq target 4 0 b h)
      | inr e ↦ rw e refl
    ]

generic_loop_lem : (left irq : ℕ) (b : Board) → generic_loop left irq b ≡ b
unfolding generic_loop plic_is_irq_enabled_on_any
generic_loop_lem zero irq b = refl
generic_loop_lem (suc left) irq b = elim (Bool-cases (plic_is_enabled b.plic irq 0)) [
  | inl e ↦ rw e (generic_loop_lem left (irq + 1) b)
  | inr e ↦ rw e (generic_loop_lem left (irq + 1) b)
]

-- The table of interrupts and harts comes down to its last line: the eight lines before it, from
-- the port's to the sound card's, and the pass over all the other interrupts change nothing.
pub setup_irq_affinity-plic_set_irq_affinity :
    (b : Board) → setup_irq_affinity b ≡ plic_set_irq_affinity 1 0 b
unfolding setup_irq_affinity setup_generic_irq_affinity setup_critical_irq_affinity
setup_irq_affinity-plic_set_irq_affinity b =
    let out = λ (irq : ℕ) (target : ℕ) (h : 4 ≤ irq). plic_set_irq_affinity_out irq target b h in
    generic_loop_lem 1022 1 _
    ∙ rw
        (
          out 10 0 (omega arith),
          out 11 0 (omega arith),
          out 30 1 (omega arith),
          out 31 2 (omega arith),
          out 20 3 (omega arith),
          out 21 3 (omega arith),
          out 40 2 (omega arith),
          out 50 1 (omega arith),
        )
        refl

plic_update-enabled :
    (c j k : ℕ) (b : Board)
    → plic_is_enabled (plic_update c b).plic j k ≡ plic_is_enabled b.plic j k
unfolding plic_update plic_is_enabled
plic_update-enabled c j k b = elim (Bool-cases (ltb c 4)) [ inl e ↦ rw e refl | inr e ↦ rw e refl ]

enable_set :
    (c i : ℕ) (on : Bool) (j k : ℕ) (p : Plic)
    → (leb 1 i && ltb i 1023) && ltb c 4 ≡ true
    → plic_is_enabled
        (record p {
          enable = update p.enable c (if on then raise (p.enable c) i else lower (p.enable c) i);
        })
        j
        k
      ≡ (if c == k && i == j then on else plic_is_enabled p j k)
unfolding plic_is_enabled
enable_set c i on j k p v = elim (Bool-cases (c == k)) [
  | inl e ↦
      ground (arith, flag-set on (p.enable c) i j, ap (λ t. flag (p.enable t) j) ((==_iff c k).0 e))
  | inr e ↦ rw e refl
]

-- An enable bit of the four harts.
plic_set_enable-enabled :
    (c i : ℕ) (on : Bool) (j k : ℕ) (b : Board)
    → (leb 1 i && ltb i 1023) && ltb c 4 ≡ true
    → plic_is_enabled (plic_set_enable c i on b).plic j k
      ≡ (if c == k && i == j then on else plic_is_enabled b.plic j k)
unfolding plic_set_enable
plic_set_enable-enabled c i on j k b v =
    rw v (plic_update-enabled c j k _ ∙ enable_set c i on j k b.plic v)

-- Interrupt 0 is no interrupt.
plic_set_enable_none : (c : ℕ) (on : Bool) (b : Board) → plic_set_enable c 0 on b ≡ b
unfolding plic_set_enable
plic_set_enable_none c on b = refl

module _ (irq cpu_id : ℕ) where
  Enabled : Board → Bool → Type 0
  Enabled b on = plic_is_enabled b.plic irq cpu_id ≡ on

  -- One more call of `plic_set_enable`.
  next :
      (c i : ℕ) (on : Bool) (b : Board) (before : Bool)
      → (leb 1 i && ltb i 1023) && ltb c 4 ≡ true
      → Enabled b before
      → Enabled (plic_set_enable c i on b) (if c == cpu_id && i == irq then on else before)
  unfolding Enabled
  next c i on b before v e = rw (← e) (plic_set_enable-enabled c i on irq cpu_id b v)

  nothing : (b : Board) → Enabled (with_plic b fresh) false
  unfolding Enabled plic_is_enabled flag
  nothing b = ground (arith, zero-bit (irq % 32))

  defaults :
      (b : Board)
      → Enabled (plic_init_enables (with_plic b fresh)) (ltb cpu_id 4 && (irq == 10 || irq == 1))
  unfolding Enabled plic_init_enables init_enables_loop
  defaults b =
      next 3 1 true _ _ refl (
        next 3 10 true _ _ refl (
          next 2 1 true _ _ refl (
            next 2 10 true _ _ refl (
              next 1 1 true _ _ refl (
                next 1 10 true _ _ refl
                  (next 0 1 true _ _ refl (next 0 10 true _ _ refl (nothing b))))))))
      ∙ ground arith

  last :
      (b : Board) (before : Bool)
      → Enabled b before
      → Enabled
          (plic_set_irq_affinity 1 0 b)
          (before && not (cpu_id == 1 && (irq == 1 || (irq == 2 || irq == 3))))
  unfolding Enabled plic_set_irq_affinity affinity_loop
  last b before e =
      next 1 3 false _ _ refl (
        next 1 2 false _ _ refl (
          next 1 1 false _ _ refl (
            ap (λ (t : Board). plic_is_enabled t.plic irq cpu_id) (plic_set_enable_none 1 true b)
            ∙ e)))
      ∙ ground arith

-- The interrupts that a hart has enabled after the start.
unfoldable pub at_start : ℕ → ℕ → Bool
at_start irq cpu_id = ltb cpu_id 4 && (irq == 10 || irq == 1 && not (cpu_id == 1))

-- After the start, the serial port's interrupt is enabled on all four harts, the disk's on all of
-- them but hart 1, and no other interrupt on any hart.
pub plic_init-plic_is_enabled :
    (b : Board) (irq cpu_id : ℕ)
    → plic_is_enabled (plic_init b).plic irq cpu_id ≡ at_start irq cpu_id
unfolding plic_init Enabled at_start
plic_init-plic_is_enabled b irq cpu_id =
    let set = with_plic b fresh in
    ap (λ (t : Board). plic_is_enabled t.plic irq cpu_id)
      (setup_irq_affinity-plic_set_irq_affinity (plic_init_enables set))
    ∙ last irq cpu_id (plic_init_enables set) _ (defaults irq cpu_id b)
    ∙ ground arith
