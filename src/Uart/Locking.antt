-- ===== src/Uart/Locking.antt =====
-- src/uart.c: which accesses of the registers return, and what they leave of the lock.
use risc_v_emulator.Prelude.{
  ℕ, ◌%◌, ◌^◌, ◌≡◌, refl, arith, ap, Bool, true, false, ◌==◌, ◌&&◌, ◌||◌, not, ◌⊎◌, if◌then◌else◌,
  Bool-cases, inl, inr, Option, some, none, ◌>>=◌, u32,
}
use risc_v_emulator.Uart.{Uart, Serial, with_uart, acquire, uart_update_irq, rx_buf_pop}
use risc_v_emulator.Uart.Registers.{
  dlab, load_register, cut, read_rbr, uart_mmio_read, uart_mmio_write, store_register,
}

-- The holder of the lock asks for it again.
rx_buf_pop_held : (s : Serial) → s.uart.locked ≡ true → rx_buf_pop s ≡ none
unfolding rx_buf_pop acquire
rx_buf_pop_held s h = rw h refl

read_rbr_held : (size : ℕ) (s : Serial) → s.uart.locked ≡ true → read_rbr size s ≡ none
unfolding read_rbr
read_rbr_held size s h = rw (rx_buf_pop_held s h) refl

-- The lock after an access that returned; `none` where it did not return.
unfoldable pub lock_of : Option (ℕ × Serial) → Option Bool
lock_of none = none
lock_of (some r) = some (r.1.uart.locked)

-- A load from the serial port. It returns exactly where the lock is free and it is not a load of
-- the receive buffer, and it gives the lock back unless it is a load of the divisor's low byte.
pub uart_mmio_read-locked :
    (offset size : ℕ) (s : Serial)
    → lock_of (uart_mmio_read offset size s)
      ≡ (if s.uart.locked || (offset == 0 && not (dlab s.uart)) then none else some (offset == 0))
unfolding lock_of uart_mmio_read acquire
uart_mmio_read-locked offset size s = elim (Bool-cases s.uart.locked) [
  | inl l ↦ rw l refl
  | inr l ↦ elim (Bool-cases (offset == 0)) [
    | inr z ↦ rw (l, z) refl
    | inl z ↦ elim (Bool-cases (dlab s.uart)) [
      | inl d ↦ rw (l, z, d) refl
      | inr d ↦
          rw (l, z, d, read_rbr_held size (with_uart s (record s.uart { locked = true })) refl) refl
    ]
  ]
]

-- What a load of a register returns after a store to it went through: `none` where the store or
-- the load does not return.
unfoldable pub read_back : ℕ → ℕ → ℕ → Serial → Option ℕ
read_back offset value size s = do
  stored ← uart_mmio_write offset value size s
  r ← uart_mmio_read offset size stored
  some (r.0)

-- The bits of a register that are there to be stored: four of `ier`, five of `mcr`, all eight of
-- `dlm`, `lcr` and `scr`, all 32 of `ctrl`.
unfoldable pub width : Bool → ℕ → ℕ
width d offset =
    if offset == 1
    then (if d then 8 else 4)
    else if offset == 3
    then 8
    else if offset == 4
    then 5
    else if offset == 7
    then 8
    else 32

unfoldable pub is_kept : ℕ → Bool
is_kept offset = offset == 1 || offset == 3 || offset == 4 || offset == 7 || offset == 8

-- What a store of `value` leaves for a load.
Kept : ℕ → ℕ → Serial → ℕ → Type 0
Kept value size s offset =
    read_back offset value size s ≡ some (cut size (u32 value % 2 ^ width (dlab s.uart) offset))

ier_stored :
    (v : ℕ) (d : Bool) (u : Uart)
    → dlab u ≡ d
    → load_register (record (store_register 1 v u) { locked = true }) 1 ≡ v % 2 ^ width d 1
unfolding load_register store_register width
ier_stored v true u e = rw e (rw e refl)
ier_stored v false u e = rw e (rw e refl)

module _ (value size : ℕ) (s : Serial) (l : s.uart.locked ≡ false) where
  ier-Kept : Kept value size s 1
  unfolding Kept read_back uart_mmio_read uart_mmio_write acquire uart_update_irq
  ier-Kept =
      let held = record s.uart { locked = true } in
      rw l (ap (λ r. some (cut size r)) (ier_stored (u32 value) (dlab s.uart) held refl))

  lcr-Kept : Kept value size s 3
  unfolding Kept read_back uart_mmio_read uart_mmio_write acquire load_register store_register width
  lcr-Kept = rw l refl

  mcr-Kept : Kept value size s 4
  unfolding Kept read_back uart_mmio_read uart_mmio_write acquire uart_update_irq load_register
      store_register width
  mcr-Kept = rw l refl

  scr-Kept : Kept value size s 7
  unfolding Kept read_back uart_mmio_read uart_mmio_write acquire load_register store_register width
  scr-Kept = rw l refl

  ctrl-Kept : Kept value size s 8
  unfolding Kept read_back uart_mmio_read uart_mmio_write acquire load_register store_register width
  ctrl-Kept = let all : u32 value % 2 ^ 32 ≡ u32 value = omega arith in rw (l, all) refl

-- The five offsets.
which_kept :
    (offset : ℕ)
    → is_kept offset ≡ true
    → (offset ≡ 1) ⊎ ((offset ≡ 3) ⊎ ((offset ≡ 4) ⊎ ((offset ≡ 7) ⊎ (offset ≡ 8))))
unfolding is_kept
which_kept offset k = ground arith

-- While the lock is free, a load of `ier`, `dlm`, `lcr`, `mcr`, `scr` or `ctrl` of any size
-- returns what the store to it just before left of its value: the bits that the register has, cut
-- to the size of the load.
pub uart_mmio_read-uart_mmio_write :
    (offset value size : ℕ) (s : Serial)
    → s.uart.locked ≡ false
    → is_kept offset ≡ true
    → read_back offset value size s ≡ some (cut size (u32 value % 2 ^ width (dlab s.uart) offset))
unfolding Kept
uart_mmio_read-uart_mmio_write offset value size s l k = elim (which_kept offset k) [
  | inl e ↦ rw e (ier-Kept value size s l)
  | inr (inl e) ↦ rw e (lcr-Kept value size s l)
  | inr (inr (inl e)) ↦ rw e (mcr-Kept value size s l)
  | inr (inr (inr (inl e))) ↦ rw e (scr-Kept value size s l)
  | inr (inr (inr (inr e))) ↦ rw e (ctrl-Kept value size s l)
]
