-- ===== src/Plic.antt =====
-- src/plic.c: the platform-level interrupt controller, and src/cpu.c, `cpu_try_wakeup`, which it
-- calls. The words of a bitmap are an array of 32-bit words; the harts are the array `cpu`.
pub mod Words
pub mod Select
pub mod Claim
pub mod Ways
pub mod Line
pub mod Settled
pub mod Raise
pub mod Setup
pub mod Registers
use risc_v_emulator.Prelude.{
  ℕ, zero, suc, ◌+◌, ◌-◌, ◌*◌, ◌/◌, ◌%◌, ◌^◌, Bool, true, false, ◌==◌, ◌&&◌, ◌||◌, not, ltb, leb,
  if◌then◌else◌, update, bit, set_bit, clear_bit_u32, u32, sub64,
}
use risc_v_emulator.Cpu.{Cpu, csr_mip}
use risc_v_emulator.Plic.Words.{flag, raise, lower}

-- `PLICState`, without the unused `claim_complete`.
pub record Plic : Type 0 where
  pub priority : ℕ → ℕ
  pub enable : ℕ → ℕ → ℕ
  pub threshold : ℕ → ℕ
  pub irq_pending : ℕ → Bool
  pub pending : ℕ → ℕ
  pub claimed : ℕ → ℕ → ℕ
  pub current_irq : ℕ → ℕ

-- The controller and the harts that it interrupts.
pub record Board : Type 0 where
  pub plic : Plic
  pub cpus : ℕ → Cpu

abbrev pub max_irqs : ℕ
max_irqs = 1023

abbrev pub max_cores : ℕ
max_cores = 4

abbrev pub plic_is_valid_irq : ℕ → Bool
plic_is_valid_irq irq = leb 1 irq && ltb irq max_irqs

abbrev pub plic_is_valid_cpu : ℕ → Bool
plic_is_valid_cpu cpu_id = ltb cpu_id max_cores

unfoldable pub plic_is_enabled : Plic → ℕ → ℕ → Bool
plic_is_enabled p irq cpu_id =
    (plic_is_valid_irq irq && plic_is_valid_cpu cpu_id) && flag (p.enable cpu_id) irq

-- The tests that `plic_claim` and `plic_update` make of an interrupt before its priority.
unfoldable pub eligible : Plic → ℕ → ℕ → Bool
eligible p cpu_id irq =
    (flag p.pending irq && not (flag (p.claimed cpu_id) irq)) && plic_is_enabled p irq cpu_id

-- The loop of both: an interrupt above the greatest priority so far takes the lead. `left` rounds
-- are to go.
unfoldable pub best_loop : Plic → ℕ → ℕ → ℕ → ℕ → ℕ → ℕ
best_loop p cpu_id zero irq max_priority winning_irq = winning_irq
best_loop p cpu_id (suc left) irq max_priority winning_irq =
    let leads = eligible p cpu_id irq && ltb max_priority (p.priority irq) in
    best_loop p cpu_id left (irq + 1) (if leads then p.priority irq else max_priority)
      (if leads then irq else winning_irq)

-- `for (irq = 1; irq < MAX_IRQS; irq++)` from the threshold on; 0 is no interrupt.
unfoldable pub best : Plic → ℕ → ℕ
best p cpu_id = best_loop p cpu_id (max_irqs - 1) 1 (p.threshold cpu_id) 0

-- `cpu_try_wakeup`: a halted hart with a pending external interrupt goes on.
unfoldable pub cpu_try_wakeup : Cpu → Cpu
cpu_try_wakeup c = record c { halted = c.halted && not (bit (c.csr csr_mip) 11) }

abbrev pub set_mip : Cpu → ℕ → Cpu
set_mip c v = record c { csr = update c.csr csr_mip v }

-- The hart's interrupt line, high or low.
unfoldable pub drive : Bool → Cpu → Cpu
drive true c = cpu_try_wakeup (set_mip c (set_bit (c.csr csr_mip) 11))
drive false c = set_mip c (clear_bit_u32 (c.csr csr_mip) 11)

unfoldable pub plic_update : ℕ → Board → Board
plic_update cpu_id b =
    let p = b.plic in
    let max_irq = best p cpu_id in
    let high = ltb 0 max_irq in
    let p' = record p {
      current_irq = update p.current_irq cpu_id max_irq;
      irq_pending = update p.irq_pending cpu_id high;
    } in
    if plic_is_valid_cpu cpu_id
    then record b { plic = p'; cpus = update b.cpus cpu_id (drive high (b.cpus cpu_id)) }
    else b

abbrev pub with_plic : Board → Plic → Board
with_plic b p = record b { plic = p }

unfoldable pub plic_set_enable : ℕ → ℕ → Bool → Board → Board
plic_set_enable cpu_id irq enabled b =
    let p = b.plic in
    let words = p.enable cpu_id in
    let words' = if enabled then raise words irq else lower words irq in
    if plic_is_valid_irq irq && plic_is_valid_cpu cpu_id
    then plic_update cpu_id (with_plic b (record p { enable = update p.enable cpu_id words' }))
    else b

-- `for (irq = start_irq; irq <= end_irq; irq++)`, with `left` rounds to go.
unfoldable pub enable_loop : ℕ → ℕ → ℕ → Bool → Board → Board
enable_loop cpu_id zero irq enabled b = b
enable_loop cpu_id (suc left) irq enabled b =
    enable_loop cpu_id left (irq + 1) enabled (plic_set_enable cpu_id irq enabled b)

unfoldable pub plic_set_enable_range : ℕ → ℕ → ℕ → Bool → Board → Board
plic_set_enable_range cpu_id start_irq end_irq enabled b =
    enable_loop cpu_id (end_irq + 1 - start_irq) start_irq enabled b

-- Thirty-one words of the bitmap are in reach: 1023 / 32.
abbrev pub in_reach : ℕ → ℕ → Bool
in_reach cpu_id word_index = plic_is_valid_cpu cpu_id && ltb word_index (max_irqs / 32)

unfoldable pub plic_get_enable : ℕ → ℕ → Board → ℕ
plic_get_enable cpu_id word_index b =
    if in_reach cpu_id word_index then b.plic.enable cpu_id word_index else 0

unfoldable pub plic_set_enable_word : ℕ → ℕ → ℕ → Board → Board
plic_set_enable_word cpu_id word_index value b =
    let p = b.plic in
    let words' = update (p.enable cpu_id) word_index (u32 value) in
    if in_reach cpu_id word_index
    then plic_update cpu_id (with_plic b (record p { enable = update p.enable cpu_id words' }))
    else b

-- A device's level goes to the pending bit. Only hart 0 is updated.
unfoldable pub plic_set_irq : ℕ → Bool → Board → Board
plic_set_irq irq level b =
    let p = b.plic in
    let words = if level then raise p.pending irq else lower p.pending irq in
    let b' = with_plic b (record p { pending = words }) in
    if plic_is_valid_irq irq then (if plic_is_enabled p irq 0 then plic_update 0 b' else b') else b

unfoldable pub plic_claim : ℕ → Board → ℕ × Board
plic_claim cpu_id b =
    let p = b.plic in
    let winning_irq = best p cpu_id in
    let p' = record p {
      claimed = update p.claimed cpu_id (raise (p.claimed cpu_id) winning_irq);
      pending = lower p.pending winning_irq;
    } in
    if plic_is_valid_cpu cpu_id
    then (winning_irq, if winning_irq == 0 then b else plic_update cpu_id (with_plic b p'))
    else (0, b)

unfoldable pub plic_complete : ℕ → ℕ → Board → Board
plic_complete cpu_id irq b =
    let p = b.plic in
    let p' = record p {
      claimed = update p.claimed cpu_id (lower (p.claimed cpu_id) irq);
      pending = lower p.pending irq;
    } in
    let c = b.cpus cpu_id in
    let cpus' = update b.cpus cpu_id (set_mip c (clear_bit_u32 (c.csr csr_mip) 11)) in
    if plic_is_valid_cpu cpu_id && plic_is_valid_irq irq
    then plic_update cpu_id (record { plic = p'; cpus = cpus' })
    else b
