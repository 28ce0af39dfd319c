-- ===== src/Tests/Ports.antt =====
-- The writer thread of the serial port at concrete inputs.
use risc_v_emulator.Prelude.{refl, arith, true, if◌then◌else◌, [], ◌∷◌, ◌==◌}
use risc_v_emulator.Uart.{Serial}
use risc_v_emulator.Uart.Queue.{Ring, contents}
use risc_v_emulator.Uart.Registers.{uart_create}
use risc_v_emulator.Uart.Writer.{uart_tx_thread, HasPrinted, uart_tx_thread-HasPrinted}
use risc_v_emulator.Tests.Board.{hart}
use risc_v_emulator.Tests.Disks.{quiet}

-- Two bytes, around the end of the buffer.
abbrev two_bytes : Ring
two_bytes = record {
  buf = λ i. if i == 1023 then 72 else if i == 0 then 105 else 0;
  head = 1;
  tail = 1023;
  count = 2;
}

abbrev port : Serial
port = record {
  uart = record (uart_create 10) { tx = two_bytes };
  board = record { plic = quiet; cpus = λ i. hart };
  printed = 62 ∷ [];
}

uart_tx_thread-HasPrinted_example :
    HasPrinted true (62 ∷ contents two_bytes) (uart_tx_thread 3 true port)
unfolding uart_create
uart_tx_thread-HasPrinted_example =
    uart_tx_thread-HasPrinted 3 true port refl
      (record { tail_in = omega arith; count_in = omega arith; head_lem = refl }) (omega arith)
