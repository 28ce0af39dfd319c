-- ===== src/Plic/Words.antt =====
-- src/plic.c: a bitmap of interrupts, `words[irq >> 5]` with the bit `irq & 0x1F`.
use risc_v_emulator.Prelude.{
  ℕ, ◌/◌, ◌%◌, ◌≡◌, arith, Bool, true, false, ◌==◌, if◌then◌else◌, update, bit, set_bit, clear_bit,
}
use risc_v_emulator.Prelude.Flags.{bit-set_bit, bit-clear_bit}

unfoldable pub flag : (ℕ → ℕ) → ℕ → Bool
flag words irq = bit (words (irq / 32)) (irq % 32)

unfoldable pub raise : (ℕ → ℕ) → ℕ → ℕ → ℕ
raise words irq = update words (irq / 32) (set_bit (words (irq / 32)) (irq % 32))

unfoldable pub lower : (ℕ → ℕ) → ℕ → ℕ → ℕ
lower words irq = update words (irq / 32) (clear_bit (words (irq / 32)) (irq % 32))

pub flag-raise :
    (words : ℕ → ℕ) (i j : ℕ) → flag (raise words i) j ≡ (if i == j then true else flag words j)
unfolding flag raise
flag-raise words i j = ground (arith, bit-set_bit (words (i / 32)) (i % 32) (j % 32))

pub flag-lower :
    (words : ℕ → ℕ) (i j : ℕ) → flag (lower words i) j ≡ (if i == j then false else flag words j)
unfolding flag lower
flag-lower words i j = ground (arith, bit-clear_bit (words (i / 32)) (i % 32) (j % 32))

pub flag-set :
    (level : Bool) (words : ℕ → ℕ) (i j : ℕ)
    → flag (if level then raise words i else lower words i) j
      ≡ (if i == j then level else flag words j)
flag-set true words i j = flag-raise words i j
flag-set false words i j = flag-lower words i j
