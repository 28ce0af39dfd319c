-- ===== src/Uart/Registers.antt =====
-- src/uart.c: the handlers of the memory-mapped registers, and the start.
use risc_v_emulator.Prelude.{
  ℕ, ◌+◌, ◌-◌, ◌*◌, ◌/◌, ◌%◌, ◌^◌, Bool, false, ◌==◌, ◌&&◌, ◌||◌, not, ltb, leb, if◌then◌else◌,
  Option, some, ◌>>=◌, bit, clear_bit, bit_and, bits, u8, u16, u32, add64,
}
use risc_v_emulator.Uart.Queue.{Ring}
use risc_v_emulator.Uart.{
  Uart, Serial, with_uart, set_line, acquire, release, uart_update_irq, uart_start_tx, rx_buf_pop,
}

abbrev pub dlab : Uart → Bool
dlab u = bit u.lcr 7

-- The registers that a load only looks at: the offsets from 1 on.
unfoldable pub load_register : Uart → ℕ → ℕ
load_register u offset =
    if offset == 1
    then (if dlab u then u.dlm else u.ier)
    else if offset == 2
    then (if bit u.ier 0 && ltb 0 u.rx.count then 4 else u.iir)
    else if offset == 3
    then u.lcr
    else if offset == 4
    then u.mcr
    else if offset == 5
    then u.lsr
    else if offset == 6
    then u.msr
    else if offset == 7
    then u.scr
    else if offset == 8
    then u.ctrl
    else if offset == 12
    then u.irq_status
    else if offset == 16
    then 0
    else 2 ^ 32 - 1

abbrev pub cut : ℕ → ℕ → ℕ
cut size res = if size == 1 then res % 2 ^ 8 else if size == 2 then res % 2 ^ 16 else res

-- A load of the received byte: `rx_buf_pop` asks for the lock again.
unfoldable pub read_rbr : ℕ → Serial → Option (ℕ × Serial)
read_rbr size held = do
  popped ← rx_buf_pop held
  let s = popped.1
  let quiet = set_line false (with_uart s (record s.uart { lsr = clear_bit s.uart.lsr 0 }))
  some (cut size (popped.0), release (if s.uart.rx.count == 0 then quiet else s))

-- The divisor's low byte is returned at once, with the lock held.
unfoldable pub uart_mmio_read : ℕ → ℕ → Serial → Option (ℕ × Serial)
uart_mmio_read offset size s = do
  held ← acquire s
  if offset == 0
      then (if dlab s.uart then some (held.uart.dll, held) else read_rbr size held)
      else some (cut size (load_register held.uart offset), release held)

unfoldable pub uart_update_baud : Uart → Uart
uart_update_baud u =
    let divisor = u16 (u.dlm * 2 ^ 8 + u.dll) in
    record u { baud_rate = if divisor == 0 then 1843200 / 16 else 1843200 / (16 * divisor) }

-- The two resets are alternatives, and that of the transmitter clears the receiver's tail.
unfoldable pub write_fcr : ℕ → Uart → Uart
write_fcr v u =
    let trigger = bits v 6 2 in
    let level =
      if trigger == 0 then 1 else if trigger == 1 then 4 else if trigger == 2 then 8 else 14 in
    let rx = u.rx in
    let tx = u.tx in
    let rx' =
      if bit v 1
      then record rx { count = 0; head = 0; tail = 0 }
      else if bit v 2
      then record rx { tail = 0 }
      else rx in
    let tx' = if not (bit v 1) && bit v 2 then record tx { count = 0; head = 0 } else tx in
    record u {
      fcr = v;
      fifo_enable = if bit v 0 then 1 else 0;
      dma_mode = if bit v 3 then 1 else 0;
      rx_trigger_level = level;
      rx = rx';
      tx = tx';
    }

-- The registers that a store only fills: the offsets from 1 on. That of `scr` falls through to `ctrl`.
unfoldable pub store_register : ℕ → ℕ → Uart → Uart
store_register offset v u =
    if offset == 1
    then (if dlab u then record u { dlm = u8 v } else record u { ier = v % 2 ^ 4 })
    else if offset == 2
    then write_fcr (u8 v) u
    else if offset == 3
    then record u { lcr = u8 v }
    else if offset == 4
    then record u { mcr = v % 2 ^ 5 }
    else if offset == 7
    then record u { scr = u8 v; ctrl = v }
    else if offset == 8
    then record u { ctrl = v }
    else if offset == 12
    then record u { irq_status = bit_and u.irq_status (2 ^ 32 - 1 - v) }
    else u

-- A store of a byte to send, or of the divisor's low byte.
unfoldable pub write_thr : ℕ → Serial → Serial
write_thr v s =
    let u = s.uart in
    if dlab u
    then with_uart s (uart_update_baud (record u { dll = u8 v }))
    else uart_start_tx (u8 v) (with_uart s (record u { thr = u8 v; lsr = clear_bit u.lsr 5 }))

unfoldable pub uart_mmio_write : ℕ → ℕ → ℕ → Serial → Option Serial
uart_mmio_write offset val size s = do
  held ← acquire s
  let v = u32 val
  let stored =
      if offset == 0 then write_thr v held else with_uart held (store_register offset v held.uart)
  let free = release stored
  some (if offset == 1 || offset == 4 then uart_update_irq free else free)

-- `mmio_write` of the window at 0x10000000.
unfoldable pub mmio_write : ℕ → ℕ → ℕ → Serial → Option Serial
mmio_write offset val size s =
    let addr = add64 0x10000000 offset in
    if leb 0x10000000 addr && ltb addr (0x10000000 + 0x100)
    then uart_mmio_write offset val size s
    else some s

abbrev pub empty : Ring
empty = record { buf = λ i. 0; head = 0; tail = 0; count = 0 }

-- `uart_init` after its `memset`, without the terminal.
abbrev pub uart_init : Uart
uart_init = record {
  thr = 0;
  ier = 0;
  fcr = 0;
  iir = 1;
  lcr = 0;
  mcr = 8;
  lsr = 0x60;
  msr = 0xb0;
  scr = 0;
  dll = 0;
  dlm = 0;
  fifo_enable = 0;
  dma_mode = 0;
  rx_trigger_level = 0;
  baud_rate = 0;
  ctrl = 0;
  irq_status = 0;
  tx = empty;
  rx = empty;
  locked = false;
  irq_num = 0;
  irq_pending = false;
}

-- The baud rate that `uart_create` sets before `uart_init` does not outlive it.
unfoldable pub uart_create : ℕ → Uart
uart_create irq_num =
    let u = uart_init in record u { ctrl = 0; irq_status = 0; irq_num = irq_num; lsr = 0x60 }
