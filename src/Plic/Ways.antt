-- ===== src/Plic/Ways.antt =====
-- src/plic.c, `plic_read` and `plic_write`: a property of the board across every register.
use risc_v_emulator.Prelude.{
  ℕ, ◌/◌, ◌%◌, ◌≡◌, inl, inr, Bool, true, false, ◌==◌, ltb, if◌then◌else◌, Bool-cases, update, u32,
}
use risc_v_emulator.Plic.{
  Board, max_irqs, with_plic, in_reach, plic_update, plic_claim, plic_complete,
}
use risc_v_emulator.Plic.Registers.{
  plic_read, plic_write, is_priority, in_block, enable_cpu, enable_word, context_register,
}

module _ (P : Board → Type 0) where
  pub either_way : (t : Bool) (x y : Board) → P x → P y → P (if t then x else y)
  either_way true x y k l = k
  either_way false x y k l = l

  -- Either way of a test whose outcome is known there.
  pub knowing : (t : Bool) (x y : Board) → (t ≡ true → P x) → P y → P (if t then x else y)
  knowing t x y k l = elim (Bool-cases t) [ inl e ↦ rw e (k e) | inr e ↦ rw e l ]

  -- The board that a load leaves.
  Leaves : ℕ × Board → Type 0
  Leaves r = P (r.1)

  either_read : (t : Bool) (x y : ℕ × Board) → Leaves x → Leaves y → Leaves (if t then x else y)
  either_read true x y k l = k
  either_read false x y k l = l

  left_as_is : (v : ℕ) (b : Board) → P b → Leaves (v, b)
  unfolding Leaves
  left_as_is v b s = s

  claims : (b : Board) → P ((plic_claim 0 b).1) → Leaves (plic_claim 0 b)
  unfolding Leaves
  claims b s = s

  leaves : (offset : ℕ) (b : Board) → P b → P ((plic_claim 0 b).1) → Leaves (plic_read offset 4 b)
  unfolding plic_read
  leaves offset b s c = either_read (is_priority offset) _ _ (left_as_is _ b s) (
      either_read (in_block 0x1000 0x107f offset) _ _ (left_as_is _ b s) (
        either_read (in_block 0x2000 0x2fff offset) _ _ (left_as_is _ b s) (
          either_read (in_block 0x200000 0x20ffff offset) _ _
            (either_read (context_register offset == 0) _ _ (left_as_is _ b s)
              (either_read (context_register offset == 4) _ _ (claims b c) (left_as_is _ b s)))
            (left_as_is _ b s))))

  -- A load claims, or leaves the board alone.
  pub plic_read_keeps :
      (offset : ℕ) (b : Board) → P b → P ((plic_claim 0 b).1) → P ((plic_read offset 4 b).1)
  unfolding Leaves
  plic_read_keeps offset b s c = leaves offset b s c

  -- A store goes to a priority, to an enable word, to the threshold, to a completion or nowhere.
  pub plic_write_keeps :
      (offset value : ℕ) (b : Board)
      → P b
      → (is_priority offset ≡ true
          → P (
              with_plic b
                (record b.plic { priority = update b.plic.priority (offset / 4) (value % 8) })))
      → ((cpu_id : ℕ) (words : ℕ → ℕ)
          → P (
              plic_update cpu_id
                (with_plic b (record b.plic { enable = update b.plic.enable cpu_id words }))))
      → P (
          plic_update 0
            (with_plic b (record b.plic { threshold = update b.plic.threshold 0 (value % 8) })))
      → (context_register offset == 4 ≡ true → P (plic_complete 0 (u32 value) b))
      → P (plic_write offset value 4 b)
  unfolding plic_write
  plic_write_keeps offset value b s priorities enables thresholds completes =
      let cpu_id = enable_cpu offset in
      let words = update (b.plic.enable cpu_id) (enable_word offset) (u32 value) in
      knowing (is_priority offset) _ _
        (λ e. either_way (ltb (offset / 4) max_irqs) _ _ (priorities e) s)
        (either_way (in_block 0x2000 0x2fff offset) _ _
          (either_way (in_reach cpu_id (enable_word offset)) _ _ (enables cpu_id words) s)
          (either_way (in_block 0x200000 0x20ffff offset) _ _
            (either_way (context_register offset == 0) _ _ thresholds
              (knowing (context_register offset == 4) _ _ completes s))
            s))
