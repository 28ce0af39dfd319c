-- ===== src/Tests/Devices.antt =====
-- The interrupt controller and the serial port at concrete inputs.
use risc_v_emulator.Prelude.{
  ◌==◌, ◌≡◌, ◌≢◌, ◌↔◌, refl, arith, false, true, if◌then◌else◌, List, [], ◌∷◌, some, bit,
}
use risc_v_emulator.Tests.Board.{hart}
use risc_v_emulator.Plic.{Plic, Board, plic_is_enabled, plic_claim, best, best_loop, eligible}
use risc_v_emulator.Plic.Words.{flag}
use risc_v_emulator.Plic.Claim.{IsFirst, plic_claim_iff, run-plic_claim, none_completes, completes}
use risc_v_emulator.Plic.Line.{IsSettled}
use risc_v_emulator.Plic.Settled.{AllQuiet, IsQuiet, run-plic_init}
use risc_v_emulator.Plic.Raise.{IsOpen}
use risc_v_emulator.Plic.Registers.{Event, line, reading, writing, run, plic_init}
use risc_v_emulator.Uart.{Serial, uart_rx_bytes}
use risc_v_emulator.Uart.Queue.{contents, from}
use risc_v_emulator.Uart.Buffers.{Holds, Returns, arrivals, uart_rx_bytes-arrivals}
use risc_v_emulator.Uart.Registers.{uart_create, uart_mmio_read, uart_mmio_write}
use risc_v_emulator.Uart.Locking.{lock_of, uart_mmio_read-locked}
use risc_v_emulator.Uart.Transmit.{Sent, uart_mmio_write-Sent}

-- The serial port's interrupt 10 is enabled and pending on hart 0.
abbrev calling : Plic
calling = record {
  priority = λ irq. 1;
  enable = λ cpu_id word. if word == 0 then 0x402 else 0;
  threshold = λ cpu_id. 0;
  irq_pending = λ cpu_id. false;
  pending = λ word. if word == 0 then 0x400 else 0;
  claimed = λ cpu_id word. 0;
  current_irq = λ cpu_id. 0;
}

abbrev board : Board
board = record { plic = calling; cpus = λ i. hart }

plic_claim_iff_example : ((plic_claim 0 board).0 ≡ 10) ↔ IsFirst calling 0 10
plic_claim_iff_example = plic_claim_iff 0 10 board (omega arith) (λ e. omega arith)

-- The port calls again while it is served; another interrupt is completed.
abbrev again : List Event
again = line 10 true ∷ reading 0x200004 ∷ writing 0x200004 1 ∷ []

first_claim : (plic_claim 0 board).0 ≡ 10
unfolding plic_claim best best_loop eligible plic_is_enabled flag bit
first_claim = refl

run-plic_claim_example :
    (plic_claim 0 (run again ((plic_claim 0 board).1))).0 ≢ (plic_claim 0 board).0
unfolding none_completes completes
run-plic_claim_example =
    run-plic_claim board again (λ e. omega (arith, first_claim)) (rw first_claim refl)

run-plic_init_example : IsSettled (run (line 10 true ∷ writing 0x2000 0x400 ∷ []) (plic_init board))
unfolding AllQuiet IsQuiet
run-plic_init_example =
    run-plic_init (line 10 true ∷ writing 0x2000 0x400 ∷ []) board (tt, (refl, tt))

abbrev port : Serial
port = record { uart = uart_create 10; board = board; printed = [] }

empty_port : Holds [] port
unfolding uart_create contents from
empty_port = record {
  free = refl;
  ring = record { tail_in = omega arith; count_in = omega arith; head_lem = refl };
  queue = refl;
}

uart_rx_bytes-arrivals_example :
    Returns (uart_rx_bytes (65 ∷ 4 ∷ 66 ∷ []) port) (arrivals (65 ∷ 4 ∷ 66 ∷ []) [])
uart_rx_bytes-arrivals_example = uart_rx_bytes-arrivals (65 ∷ 4 ∷ 66 ∷ []) port [] empty_port

uart_mmio_read-locked_example : lock_of (uart_mmio_read 5 1 port) ≡ some false
unfolding uart_create
uart_mmio_read-locked_example = uart_mmio_read-locked 5 1 port

-- The transmitter's interrupt is on.
abbrev ready : Serial
ready = record { uart = record (uart_create 10) { ier = 2 }; board = board; printed = [] }

lets_through : IsOpen board 10
unfolding plic_is_enabled flag bit
lets_through = record {
  range = (omega arith, omega arith);
  enabled = refl;
  unclaimed = refl;
  over = omega arith;
}

uart_mmio_write-Sent_example :
    (s' : Serial) × (uart_mmio_write 0 72 1 ready ≡ some s') × Sent 72 ready s'
unfolding uart_create bit
uart_mmio_write-Sent_example = uart_mmio_write-Sent 72 1 ready refl refl refl lets_through
