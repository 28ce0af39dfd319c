-- ===== src/Plic/Registers.antt =====
-- src/plic.c: the memory-mapped registers, the affinity tables and the start.
use risc_v_emulator.Prelude.{
  ℕ, zero, suc, ◌+◌, ◌-◌, ◌/◌, ◌%◌, Bool, true, false, ◌==◌, ◌&&◌, not, ltb, leb, if◌then◌else◌,
  update, u32, List, [], ◌∷◌,
}
use risc_v_emulator.Plic.{
  Plic, Board, max_irqs, max_cores, plic_is_valid_irq, plic_is_valid_cpu, plic_is_enabled,
  with_plic, in_reach, plic_update, plic_set_enable, plic_claim, plic_complete, plic_set_irq,
}

-- The four blocks of registers: `case lo ... hi`.
abbrev pub in_block : ℕ → ℕ → ℕ → Bool
in_block lo hi offset = leb lo offset && leb offset hi

abbrev pub is_priority : ℕ → Bool
is_priority offset = in_block 0 0xfff offset

-- A hart has 0x80 bytes of enable bits. The threshold block is hart 0's, whatever the offset.
abbrev pub enable_cpu : ℕ → ℕ
enable_cpu offset = (offset - 0x2000) / 0x80

abbrev pub enable_word : ℕ → ℕ
enable_word offset = (offset - 0x2000) % 0x80 / 4

abbrev pub context_register : ℕ → ℕ
context_register offset = (offset - 0x200000) % 0x1000

unfoldable pub plic_read : ℕ → ℕ → Board → ℕ × Board
plic_read offset size b =
    let p = b.plic in
    if is_priority offset
    then (if ltb (offset / 4) max_irqs then p.priority (offset / 4) else 0, b)
    else if in_block 0x1000 0x107f offset
    then (p.pending ((offset - 0x1000) / 4), b)
    else if in_block 0x2000 0x2fff offset
    then (
      if in_reach (enable_cpu offset) (enable_word offset)
          then p.enable (enable_cpu offset) (enable_word offset)
          else 0,
      b,
    )
    else if in_block 0x200000 0x20ffff offset
    then (if context_register offset == 0
        then (p.threshold 0, b)
        else if context_register offset == 4
        then plic_claim 0 b
        else (0, b))
    else (0, b)

unfoldable pub plic_write : ℕ → ℕ → ℕ → Board → Board
plic_write offset value size b =
    let p = b.plic in
    let cpu_id = enable_cpu offset in
    let words' = update (p.enable cpu_id) (enable_word offset) (u32 value) in
    if is_priority offset
    then (if ltb (offset / 4) max_irqs
        then with_plic b (record p { priority = update p.priority (offset / 4) (value % 8) })
        else b)
    else if in_block 0x2000 0x2fff offset
    then (if in_reach cpu_id (enable_word offset)
        then plic_update cpu_id (with_plic b (record p { enable = update p.enable cpu_id words' }))
        else b)
    else if in_block 0x200000 0x20ffff offset
    then (if context_register offset == 0
        then plic_update 0 (with_plic b (record p { threshold = update p.threshold 0 (value % 8) }))
        else if context_register offset == 4
        then plic_complete 0 (u32 value) b
        else b)
    else b

-- The loop of the source has one round, hart 0.
unfoldable pub plic_is_irq_enabled_on_any : ℕ → Board → Bool
plic_is_irq_enabled_on_any irq b = plic_is_enabled b.plic irq 0

-- The loop over the harts. The interrupt and the hart stand in each other's places in the call.
unfoldable pub affinity_loop : ℕ → ℕ → ℕ → ℕ → Board → Board
affinity_loop irq target_cpu zero cpu_id b = b
affinity_loop irq target_cpu (suc left) cpu_id b =
    affinity_loop irq target_cpu left (cpu_id + 1)
      (plic_set_enable irq cpu_id (cpu_id == target_cpu) b)

unfoldable pub plic_set_irq_affinity : ℕ → ℕ → Board → Board
plic_set_irq_affinity irq target_cpu b =
    if plic_is_valid_irq irq && plic_is_valid_cpu target_cpu
    then affinity_loop irq target_cpu max_cores 0 b
    else b

-- UART, timer, network, disk, USB, PCI, audio and virtio.
unfoldable pub setup_critical_irq_affinity : Board → Board
setup_critical_irq_affinity b =
    let b₁ = plic_set_irq_affinity 11 0 (plic_set_irq_affinity 10 0 b) in
    let b₂ = plic_set_irq_affinity 31 2 (plic_set_irq_affinity 30 1 b₁) in
    let b₃ = plic_set_irq_affinity 21 3 (plic_set_irq_affinity 20 3 b₂) in
    let b₄ = plic_set_irq_affinity 50 1 (plic_set_irq_affinity 40 2 b₃) in
    plic_set_irq_affinity 1 0 b₄

-- `plic_select_target_cpu_affinity`: hart 0 if the interrupt is enabled there, else -1.
abbrev selects_cpu_0 : ℕ → Board → Bool
selects_cpu_0 irq b = plic_is_enabled b.plic irq 0

-- `for (irq = 1; irq < MAX_IRQS; irq++)`, with `left` rounds to go.
unfoldable pub generic_loop : ℕ → ℕ → Board → Board
generic_loop zero irq b = b
generic_loop (suc left) irq b =
    let target = not (plic_is_irq_enabled_on_any irq b) && selects_cpu_0 irq b in
    generic_loop left (irq + 1) (if target then plic_set_irq_affinity irq 0 b else b)

unfoldable pub setup_generic_irq_affinity : Board → Board
setup_generic_irq_affinity b = generic_loop (max_irqs - 1) 1 b

unfoldable pub setup_irq_affinity : Board → Board
setup_irq_affinity b = setup_generic_irq_affinity (setup_critical_irq_affinity b)

-- The UART and the virtio disk on every hart, with `left` harts to go.
unfoldable pub init_enables_loop : ℕ → ℕ → Board → Board
init_enables_loop zero cpu_id b = b
init_enables_loop (suc left) cpu_id b =
    init_enables_loop left (cpu_id + 1)
      (plic_set_enable cpu_id 1 true (plic_set_enable cpu_id 10 true b))

unfoldable pub plic_init_enables : Board → Board
plic_init_enables b = init_enables_loop max_cores 0 b

-- Priority 1 for every interrupt but 0 and those past the end; the rest is cleared.
abbrev pub fresh : Plic
fresh = record {
  priority = λ irq. if plic_is_valid_irq irq then 1 else 0;
  enable = λ cpu_id word. 0;
  threshold = λ cpu_id. 0;
  irq_pending = λ cpu_id. false;
  pending = λ word. 0;
  claimed = λ cpu_id word. 0;
  current_irq = λ cpu_id. 0;
}

unfoldable pub plic_init : Board → Board
plic_init b = setup_irq_affinity (plic_init_enables (with_plic b fresh))

-- What happens to the controller while the program runs: a device drives its line, a load or a
-- store of the hart reaches a register.
pub data Event : Type 0 where
  line : ℕ → Bool → Event
  reading : ℕ → Event
  writing : ℕ → ℕ → Event

unfoldable pub handle : Event → Board → Board
handle (line irq level) b = plic_set_irq irq level b
handle (reading offset) b = (plic_read offset 4 b).1
handle (writing offset value) b = plic_write offset value 4 b

unfoldable pub run : List Event → Board → Board
run [] b = b
run (e ∷ es) b = run es (handle e b)
