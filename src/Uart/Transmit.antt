-- ===== src/Uart/Transmit.antt =====
-- src/uart.c: a store of a byte to send, through to the hart.
use risc_v_emulator.Prelude.{
  ℕ, ◌≡◌, refl, true, false, some, bit, u32, u8, [], ◌∷◌, ◌++◌, set_bit, clear_bit,
}
use risc_v_emulator.Prelude.Flags.{bit-set_bit}
use risc_v_emulator.Cpu.{csr_mip}
use risc_v_emulator.Plic.{plic_set_irq}
use risc_v_emulator.Plic.Raise.{IsOpen, plic_set_irq-mip}
use risc_v_emulator.Uart.{Serial, acquire, uart_start_tx, uart_tx_complete}
use risc_v_emulator.Uart.Registers.{dlab, uart_mmio_write, write_thr}

-- A port that has sent the byte: it is printed after the others, the lock is free, the holding
-- register is empty again, and hart 0 has an external interrupt pending.
pub record Sent (b : ℕ) (s s' : Serial) : Type 0 where
  pub shown : s'.printed ≡ s.printed ++ (b ∷ [])
  pub unlocked : s'.uart.locked ≡ false
  pub empty : bit s'.uart.lsr 5 ≡ true
  pub interrupt : bit ((s'.board.cpus 0).csr csr_mip) 11 ≡ true

-- A store of a byte to a free port, with the divisor latch off and the transmitter's interrupt on,
-- returns. It prints the byte and leaves the port ready for the next; and where the controller
-- lets the port's interrupt through to hart 0, the external interrupt of hart 0 is pending.
pub uart_mmio_write-Sent :
    (value size : ℕ) (s : Serial)
    → s.uart.locked ≡ false
    → dlab s.uart ≡ false
    → bit s.uart.ier 1 ≡ true
    → IsOpen s.board s.uart.irq_num
    → (s' : Serial) × (uart_mmio_write 0 value size s ≡ some s') × Sent (u8 (u32 value)) s s'
unfolding uart_mmio_write acquire write_thr uart_start_tx uart_tx_complete
uart_mmio_write-Sent value size s l d i o =
    let b = u8 (u32 value) in
    let u = s.uart in
    let s' = record s {
      uart = record u {
        thr = b;
        lsr = set_bit (clear_bit u.lsr 5) 5;
        irq_pending = true;
        locked = false;
      };
      board = plic_set_irq u.irq_num true s.board;
      printed = s.printed ++ (b ∷ []);
    } in
    (
      s',
      rw (l, d, i) refl,
      record {
        shown = refl;
        unlocked = refl;
        empty = bit-set_bit (clear_bit u.lsr 5) 5 5;
        interrupt = plic_set_irq-mip u.irq_num s.board o;
      },
    )
