-- ===== src/Uart/Buffers.antt =====
-- src/uart.c: what `uart_rx_thread` puts into the receive buffer, as a queue.
use risc_v_emulator.Prelude.{
  ℕ, ◌≤◌, ◌≡◌, refl, arith, ap, sym, ◌∙◌, Bool, true, false, ◌==◌, leb, if◌then◌else◌, Bool-cases,
  inl, inr, List, [], ◌∷◌, ◌++◌, Option, some, bit,
}
use risc_v_emulator.Plic.{Board}
use risc_v_emulator.Uart.Queue.{
  Ring, ring_size, ring_drop, contents, IsRing, contents-ring_put, ring_put-IsRing,
  contents-ring_drop, ring_drop-IsRing, ring_drop_count, length, length-contents,
}
use risc_v_emulator.Uart.{
  Uart, Serial, with_uart, set_line, acquire, release, rx_receive, rx_buf_push, rx_byte,
  uart_rx_bytes,
}

unfoldable pub rest : List ℕ → List ℕ
rest [] = []
rest (x ∷ xs) = xs

-- A queue of 1024 places that gives up its oldest byte.
unfoldable pub enqueue : ℕ → List ℕ → List ℕ
enqueue b q = (if leb ring_size (length q) then rest q else q) ++ (b ∷ [])

-- The bytes of one read in turn, Ctrl+D left out.
unfoldable pub arrivals : List ℕ → List ℕ → List ℕ
arrivals [] q = q
arrivals (b ∷ bs) q = arrivals bs (if b == 4 then q else enqueue b q)

rest-contents : (r : Ring) → IsRing r → 1 ≤ r.count → rest (contents r) ≡ contents (ring_drop r)
unfolding rest
rest-contents r v h = ap rest (contents-ring_drop r v h)

-- A free port with a sound receive buffer that holds the queue.
pub record Holds (q : List ℕ) (s : Serial) : Type 0 where
  pub free : s.uart.locked ≡ false
  pub ring : IsRing s.uart.rx
  pub queue : contents s.uart.rx ≡ q

rx_receive-IsRing : (b : ℕ) (u : Uart) → IsRing u.rx → IsRing (rx_receive b u).rx
unfolding rx_receive
rx_receive-IsRing b u v = elim (Bool-cases (leb ring_size u.rx.count)) [
  | inl e ↦ rw e (
      ring_put-IsRing b (ring_drop u.rx) (ring_drop-IsRing u.rx v (ground arith))
        (ring_drop_count u.rx v (ground arith)))
  | inr e ↦ rw e (ring_put-IsRing b u.rx v (ground arith))
]

rx_receive_queue :
    (b : ℕ) (u : Uart) → IsRing u.rx → contents (rx_receive b u).rx ≡ enqueue b (contents u.rx)
unfolding rx_receive enqueue
rx_receive_queue b u v =
    let size = length-contents u.rx in
    elim (Bool-cases (leb ring_size u.rx.count)) [
      | inl e ↦
          let some_bytes : 1 ≤ u.rx.count = ground arith in
          let put =
            contents-ring_put b (ring_drop u.rx) (ring_drop-IsRing u.rx v some_bytes)
              (ring_drop_count u.rx v some_bytes) in
          rw (size, e) (put ∙ ap (λ q. q ++ (b ∷ [])) (sym (rest-contents u.rx v some_bytes)))
      | inr e ↦ rw (size, e) (contents-ring_put b u.rx v (ground arith))
    ]

-- What a byte or a series of bytes does: the call returns, and the port holds the next queue.
unfoldable pub Returns : Option Serial → List ℕ → Type 0
Returns r q = (s : Serial) × (r ≡ some s) × Holds q s

-- A port whose buffer has received the byte, with or without an interrupt.
rx_receive-Holds :
    (b : ℕ) (t : Bool) (s : Serial) (q : List ℕ)
    → IsRing s.uart.rx
    → contents s.uart.rx ≡ q
    → let received = with_uart s (rx_receive b s.uart) in
      Holds (enqueue b q) (release (if t then set_line true received else received))
rx_receive-Holds b true s q v e = record {
  free = refl;
  ring = rx_receive-IsRing b s.uart v;
  queue = rx_receive_queue b s.uart v ∙ ap (enqueue b) e;
}
rx_receive-Holds b false s q v e = record {
  free = refl;
  ring = rx_receive-IsRing b s.uart v;
  queue = rx_receive_queue b s.uart v ∙ ap (enqueue b) e;
}

rx_buf_push-Returns :
    (b : ℕ) (s : Serial) (q : List ℕ) → Holds q s → Returns (rx_buf_push b s) (enqueue b q)
unfolding Returns rx_buf_push acquire
rx_buf_push-Returns b s q h =
    let held = with_uart s (record s.uart { locked = true }) in
    (_, rw h.free refl, rx_receive-Holds b (bit s.uart.ier 0) held q h.ring h.queue)

same_uart :
    (s : Serial) (other : Board) (q : List ℕ)
    → Holds q s
    → Returns (some (record s { board = other })) q
unfolding Returns
same_uart s other q h = (_, refl, record { free = h.free; ring = h.ring; queue = h.queue })

rx_byte-Returns :
    (b : ℕ) (s : Serial) (q : List ℕ)
    → Holds q s
    → Returns (rx_byte b s) (if b == 4 then q else enqueue b q)
unfolding rx_byte
rx_byte-Returns b s q h = elim (Bool-cases (b == 4)) [
  | inl e ↦ rw e (same_uart s _ q h)
  | inr e ↦ rw e (rx_buf_push-Returns b s q h)
]

-- Every byte that the host's reader thread takes goes into the receive buffer, and none of them is
-- lost but the oldest ones of a buffer that is full; Ctrl+D goes nowhere. Where the lock is free
-- and the buffer is sound, the thread gets through all of the bytes, leaves the lock free and the
-- buffer sound, and the buffer holds what a queue of 1024 places holds that gives up its oldest
-- byte for each that it has no place for.
pub uart_rx_bytes-arrivals :
    (bs : List ℕ) (s : Serial) (q : List ℕ)
    → Holds q s
    → Returns (uart_rx_bytes bs s) (arrivals bs q)
unfolding uart_rx_bytes arrivals Returns
uart_rx_bytes-arrivals [] s q h = (s, refl, h)
uart_rx_bytes-arrivals (b ∷ bs) s q h =
    let first = rx_byte-Returns b s q h in
    rw (first.1) (uart_rx_bytes-arrivals bs (first.0) _ (first.2))
