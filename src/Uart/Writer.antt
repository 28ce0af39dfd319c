-- ===== src/Uart/Writer.antt =====
-- src/uart.c, `uart_tx_thread`: what the writer thread makes of the transmit buffer.
use risc_v_emulator.Prelude.{
  ℕ, zero, suc, ◌≤◌, ◌<◌, ◌≡◌, refl, arith, ap, sym, subst, ◌∙◌, Bool, true, false, ◌==◌,
  if◌then◌else◌, Bool-cases, inl, inr, List, [], ◌∷◌, ◌++◌, Option, none, some,
}
use risc_v_emulator.Uart.Queue.{
  Ring, from, ring_drop, contents, IsRing, contents-ring_drop, ring_drop-IsRing,
}
use risc_v_emulator.Uart.{
  Uart, Serial, with_uart, acquire, release, uart_update_irq, uart_update_lsr, tx_buf_pop,
}

-- Where the thread stands: it waits for `tx_cond`, has left its loop, asks for a lock that it does not
-- get, or has used up its fuel.
pub data TxEnd : Type 0 where
  waits : Serial → TxEnd
  leaves : Serial → TxEnd
  blocked : TxEnd
  out_of_fuel : TxEnd

-- After the unlock: the byte is printed, and the interrupt brought up to date.
abbrev pub print_byte : ℕ → Serial → Serial
print_byte b s = uart_update_irq (record s { printed = s.printed ++ (b ∷ []) })

-- A round with the lock: what is popped, and the port after the unlock.
abbrev after_unlock : Serial → Option (ℕ × Uart) → Option (ℕ × Serial)
after_unlock held none = none
after_unlock held (some (b, u)) = some (b, release (with_uart held u))

abbrev pub pop_byte : Serial → Option (ℕ × Serial)
pop_byte held = after_unlock held (tx_buf_pop held.uart)

-- With nothing to pop the thread waits, or leaves when the port is shut down.
abbrev pub after_pop : Bool → Serial → (ℕ → Serial → TxEnd) → Option (ℕ × Serial) → TxEnd
after_pop running held go_on none = if running then waits (release held) else leaves (release held)
after_pop running held go_on (some (b, s)) = go_on b s

abbrev with_lock : (Serial → TxEnd) → Option Serial → TxEnd
with_lock round none = blocked
with_lock round (some held) = round held

-- `uart_tx_thread`, while `u->running` is `running`.
unfoldable pub uart_tx_thread : ℕ → Bool → Serial → TxEnd
uart_tx_thread zero running s = out_of_fuel
uart_tx_thread (suc fuel) running s =
    with_lock
      (λ held.
        after_pop running held (λ b s'. uart_tx_thread fuel running (print_byte b s'))
          (pop_byte held))
      (acquire s)

-- The thread waits or, if the port is shut down, has left, with the buffer empty, the lock free and
-- these bytes printed.
abbrev pub HasPrinted : Bool → List ℕ → TxEnd → Type 0
HasPrinted running bytes (waits s) =
    (running ≡ true) × (s.printed ≡ bytes) × (s.uart.tx.count ≡ 0) × (s.uart.locked ≡ false)
HasPrinted running bytes (leaves s) =
    (running ≡ false) × (s.printed ≡ bytes) × (s.uart.tx.count ≡ 0) × (s.uart.locked ≡ false)
HasPrinted running bytes blocked = ⊥
HasPrinted running bytes out_of_fuel = ⊥

abbrev held_by : Serial → Serial
held_by s = with_uart s (record s.uart { locked = true })

-- The port after the oldest byte is popped.
abbrev popped : Serial → Serial
popped s =
    release
      (with_uart s (uart_update_lsr (record s.uart { tx = ring_drop s.uart.tx; locked = true })))

choose_false : {A : Type 0} → (b : Bool) (x y : A) → b ≡ false → (if b then x else y) ≡ y
choose_false b x y e = rw e refl

choose_true : {A : Type 0} → (b : Bool) (x y : A) → b ≡ true → (if b then x else y) ≡ x
choose_true b x y e = rw e refl

acquire_free : (s : Serial) → s.uart.locked ≡ false → acquire s ≡ some (held_by s)
unfolding acquire
acquire_free s free = choose_false s.uart.locked none (some (held_by s)) free

pop_byte_empty : (s : Serial) → s.uart.tx.count == 0 ≡ true → pop_byte (held_by s) ≡ none
unfolding tx_buf_pop
pop_byte_empty s e = ap (after_unlock (held_by s)) (choose_true (s.uart.tx.count == 0) none _ e)

pop_byte_busy :
    (s : Serial)
    → s.uart.tx.count == 0 ≡ false
    → pop_byte (held_by s) ≡ some (s.uart.tx.buf s.uart.tx.tail, popped s)
unfolding tx_buf_pop
pop_byte_busy s e = ap (after_unlock (held_by s)) (choose_false (s.uart.tx.count == 0) none _ e)

round_lem :
    (fuel : ℕ) (running : Bool) (s : Serial) (r : Option (ℕ × Serial))
    → s.uart.locked ≡ false
    → pop_byte (held_by s) ≡ r
    → uart_tx_thread (suc fuel) running s
      ≡ after_pop running (held_by s) (λ b s'. uart_tx_thread fuel running (print_byte b s')) r
unfolding uart_tx_thread
round_lem fuel running s r free e =
    ap
      (with_lock (λ held.
        after_pop running held (λ b s'. uart_tx_thread fuel running (print_byte b s'))
          (pop_byte held)))
      (acquire_free s free)
    ∙ ap (after_pop running (held_by s) (λ b s'. uart_tx_thread fuel running (print_byte b s'))) e

append_one : (xs : List ℕ) (y : ℕ) (ys : List ℕ) → (xs ++ (y ∷ [])) ++ ys ≡ xs ++ (y ∷ ys)
append_one [] y ys = refl
append_one (x ∷ xs) y ys = ap (λ l. x ∷ l) (append_one xs y ys)

append_nil : (xs : List ℕ) → xs ++ [] ≡ xs
append_nil [] = refl
append_nil (x ∷ xs) = ap (λ l. x ∷ l) (append_nil xs)

contents_empty : (r : Ring) → r.count ≡ 0 → contents r ≡ []
unfolding contents from
contents_empty r e = ap (from r.buf r.tail) e

empty_HasPrinted :
    (running : Bool) (s : Serial)
    → s.uart.tx.count ≡ 0
    → HasPrinted running
        (s.printed ++ contents s.uart.tx)
        (if running then waits (release (held_by s)) else leaves (release (held_by s)))
empty_HasPrinted true s e = (
  refl,
  sym (ap (λ l. s.printed ++ l) (contents_empty s.uart.tx e) ∙ append_nil s.printed),
  e,
  refl,
)
empty_HasPrinted false s e = (
  refl,
  sym (ap (λ l. s.printed ++ l) (contents_empty s.uart.tx e) ∙ append_nil s.printed),
  e,
  refl,
)

ring_drop_less :
    (r : Ring) (n : ℕ) → IsRing r → 1 ≤ r.count → r.count < suc n → (ring_drop r).count < n
unfolding ring_drop
ring_drop_less r n v some_bytes h = omega (arith, v.count_in)

-- The port after a round that printed a byte.
abbrev after_byte : Serial → Serial
after_byte s = print_byte (s.uart.tx.buf s.uart.tx.tail) (popped s)

after_byte_lem :
    (s : Serial)
    → IsRing s.uart.tx
    → 1 ≤ s.uart.tx.count
    → (after_byte s).printed ++ contents (after_byte s).uart.tx ≡ s.printed ++ contents s.uart.tx
unfolding uart_update_irq uart_update_lsr
after_byte_lem s v h =
    append_one s.printed (s.uart.tx.buf s.uart.tx.tail) (contents (ring_drop s.uart.tx))
    ∙ ap (λ l. s.printed ++ l) (sym (contents-ring_drop s.uart.tx v h))

-- With the lock free and a sound transmit buffer, the writer thread prints the bytes of the buffer in
-- their order and then waits, or leaves if the port is shut down, within one round more than the
-- buffer has bytes.
pub uart_tx_thread-HasPrinted :
    (fuel : ℕ) (running : Bool) (s : Serial)
    → s.uart.locked ≡ false
    → IsRing s.uart.tx
    → s.uart.tx.count < fuel
    → HasPrinted running (s.printed ++ contents s.uart.tx) (uart_tx_thread fuel running s)
unfolding uart_tx_thread uart_update_irq uart_update_lsr
uart_tx_thread-HasPrinted zero running s free ring enough = absurd (omega arith)
uart_tx_thread-HasPrinted (suc fuel) running s free ring enough =
    elim (Bool-cases (s.uart.tx.count == 0)) [
      | inl e ↦
          subst (HasPrinted running (s.printed ++ contents s.uart.tx))
            (sym (round_lem fuel running s none free (pop_byte_empty s e)))
            (empty_HasPrinted running s (ground arith))
      | inr e ↦
          subst (HasPrinted running (s.printed ++ contents s.uart.tx))
            (sym (round_lem fuel running s _ free (pop_byte_busy s e)))
            (subst (λ l. HasPrinted running l (uart_tx_thread fuel running (after_byte s)))
              (after_byte_lem s ring (ground arith))
              (uart_tx_thread-HasPrinted fuel running (after_byte s) refl
                (ring_drop-IsRing s.uart.tx ring (ground arith))
                (ring_drop_less s.uart.tx fuel ring (ground arith) enough)))
    ]
