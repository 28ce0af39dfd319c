-- ===== src/Uart.antt =====
-- src/uart.c and uart.h: the 16550 serial port. `u->irq_cb` stays NULL and `u->plic` points to the
-- controller, as `uart_create` leaves them; so the calls of the callback do nothing. A result `none`
-- is a thread that asks for the lock that it holds already and never goes on.
pub mod Queue
pub mod Buffers
pub mod Locking
pub mod Registers
pub mod Transmit
pub mod Writer
pub mod Frame
use risc_v_emulator.Prelude.{
  ℕ, zero, suc, ◌+◌, ◌-◌, ◌*◌, ◌/◌, ◌%◌, ◌^◌, Bool, true, false, ◌==◌, ◌&&◌, ◌||◌, not, ltb, leb,
  if◌then◌else◌, Option, none, some, ◌>>=◌, List, [], ◌∷◌, ◌++◌, update, bit, set_bit, clear_bit,
  bit_or, bit_and, u8, u16, u32, add64,
}
use risc_v_emulator.Cpu.{Cpu}
use risc_v_emulator.Plic.{Board, plic_set_irq}
use risc_v_emulator.Uart.Queue.{Ring, ring_put, ring_drop, ring_size}

-- `UARTDevice`: the registers, the two buffers, the lock, the interrupt. Without the host's file
-- descriptors, terminal settings and threads, the unused `rbr` and the transmitter's clock.
pub record Uart : Type 0 where
  pub thr : ℕ
  pub ier : ℕ
  pub fcr : ℕ
  pub iir : ℕ
  pub lcr : ℕ
  pub mcr : ℕ
  pub lsr : ℕ
  pub msr : ℕ
  pub scr : ℕ
  pub dll : ℕ
  pub dlm : ℕ
  pub fifo_enable : ℕ
  pub dma_mode : ℕ
  pub rx_trigger_level : ℕ
  pub baud_rate : ℕ
  pub ctrl : ℕ
  pub irq_status : ℕ
  pub tx : Ring
  pub rx : Ring
  pub locked : Bool
  pub irq_num : ℕ
  pub irq_pending : Bool

-- The port, the board that it interrupts, and what it has printed.
pub record Serial : Type 0 where
  pub uart : Uart
  pub board : Board
  pub printed : List ℕ

abbrev pub with_uart : Serial → Uart → Serial
with_uart s u = record s { uart = u }

-- `plic_set_irq(u->irq_num, level)`.
abbrev pub set_line : Bool → Serial → Serial
set_line level s = record s { board = plic_set_irq s.uart.irq_num level s.board }

-- `pthread_mutex_lock` and `pthread_mutex_unlock` on `u->lock`.
unfoldable pub acquire : Serial → Option Serial
acquire s = if s.uart.locked then none else some (with_uart s (record s.uart { locked = true }))

abbrev pub release : Serial → Serial
release s = with_uart s (record s.uart { locked = false })

unfoldable pub uart_update_lsr : Uart → Uart
uart_update_lsr u =
    let ready = if ltb 0 u.rx.count then set_bit 0 0 else 0 in
    let idle = if u.tx.count == 0 then set_bit (set_bit ready 5) 6 else ready in
    record u { lsr = if ltb 0 u.tx.count then clear_bit (clear_bit idle 5) 6 else idle }

unfoldable pub uart_tx_complete : Serial → Serial
uart_tx_complete s =
    let u = s.uart in
    let idle = record u { lsr = set_bit u.lsr 5 } in
    if bit u.ier 1
    then set_line true (with_uart s (record idle { irq_pending = true }))
    else with_uart s idle

unfoldable pub uart_start_tx : ℕ → Serial → Serial
uart_start_tx ch s = uart_tx_complete (record s { printed = s.printed ++ (ch ∷ []) })

unfoldable pub uart_update_irq : Serial → Serial
uart_update_irq s = set_line s.uart.irq_pending s

-- The oldest byte of a full buffer goes. A buffer that is still full gives the lock back.
unfoldable pub tx_buf_push : ℕ → Uart → Bool × Uart
tx_buf_push b u =
    let fits = ltb u.tx.count ring_size in
    let tx = if fits then u.tx else ring_drop u.tx in
    if leb ring_size tx.count
    then (false, record u { tx = tx; locked = false })
    else (fits, uart_update_lsr (record u { tx = ring_put b tx }))

unfoldable pub tx_buf_pop : Uart → Option (ℕ × Uart)
tx_buf_pop u =
    if u.tx.count == 0
    then none
    else some (u.tx.buf u.tx.tail, uart_update_lsr (record u { tx = ring_drop u.tx }))

-- The oldest byte of a full buffer goes.
unfoldable pub rx_receive : ℕ → Uart → Uart
rx_receive b u =
    let full = leb ring_size u.rx.count in
    let lsr = if full then set_bit u.lsr 1 else u.lsr in
    let rx = if full then ring_drop u.rx else u.rx in
    record u { rx = ring_put b rx; lsr = set_bit lsr 0 }

unfoldable pub rx_buf_push : ℕ → Serial → Option Serial
rx_buf_push b s = do
  held ← acquire s
  let received = with_uart held (rx_receive b held.uart)
  some (release (if bit s.uart.ier 0 then set_line true received else received))

-- An empty buffer is popped like any other.
unfoldable pub rx_buf_pop : Serial → Option (ℕ × Serial)
rx_buf_pop s = do
  held ← acquire s
  let u = held.uart
  let popped = uart_update_lsr (record u { rx = ring_drop u.rx })
  some (u.rx.buf u.rx.tail, uart_update_irq (release (with_uart held popped)))

-- A byte that `uart_rx_thread` read: Ctrl+D stops hart 0.
unfoldable pub rx_byte : ℕ → Serial → Option Serial
rx_byte b s =
    let cpus = s.board.cpus in
    let stopped = update cpus 0 (record (cpus 0) { running = false }) in
    if b == 4
    then some (record s { board = record s.board { cpus = stopped } })
    else rx_buf_push b s

-- The bytes that one `read` returned.
unfoldable pub uart_rx_bytes : List ℕ → Serial → Option Serial
uart_rx_bytes [] s = some s
uart_rx_bytes (b ∷ bs) s = do next ← rx_byte b s; uart_rx_bytes bs next
