-- ===== src/Uart/Frame.antt =====
-- src/uart.c, `uart_update`: the bits of a frame that is sent, over time. Nothing calls it.
use risc_v_emulator.Prelude.{
  ℕ, ◌+◌, ◌-◌, ◌^◌, ◌≡◌, refl, arith, ap, ◌∙◌, Bool, true, false, ◌==◌, ◌&&◌, ◌||◌, ltb, leb,
  if◌then◌else◌, List, [], ◌∷◌, add64, u32, set_bit,
}

-- The fields of `UARTDevice` for the transmitter's clock, with `tx_bit_pos` as its 32 bits.
pub record Transmitter : Type 0 where
  pub tx_in_progress : Bool
  pub tx_bit_pos : ℕ
  pub tx_next_bit_time : ℕ
  pub bit_time_ps : ℕ
  pub lsr : ℕ

-- The time of the next bit.
abbrev next_bit : Transmitter → ℕ → Transmitter
next_bit u pos = record u {
  tx_bit_pos = pos;
  tx_next_bit_time = add64 u.tx_next_bit_time u.bit_time_ps;
}

-- From the start bit, at -1, over the positions below 8 to the end of the frame.
unfoldable pub uart_update : ℕ → Transmitter → Transmitter
uart_update now u =
    if u.tx_in_progress && leb u.tx_next_bit_time now
    then (if u.tx_bit_pos == 2 ^ 32 - 1
        then next_bit u 0
        else if ltb u.tx_bit_pos 8 || leb (2 ^ 31) u.tx_bit_pos
        then next_bit u (u32 (u.tx_bit_pos + 1))
        else record u { tx_in_progress = false; lsr = set_bit (set_bit u.lsr 5) 6 })
    else u

-- Updates at one time after the other.
abbrev pub updates : List ℕ → Transmitter → Transmitter
updates [] u = u
updates (now ∷ times) u = updates times (uart_update now u)

module _ {A : Type 0} where
  choose_true : (b : Bool) (x y : A) → b ≡ true → (if b then x else y) ≡ x
  choose_true b x y e = rw e refl

  choose_false : (b : Bool) (x y : A) → b ≡ false → (if b then x else y) ≡ y
  choose_false b x y e = rw e refl

update_idle : (now : ℕ) (u : Transmitter) → u.tx_in_progress ≡ false → uart_update now u ≡ u
unfolding uart_update
update_idle now u e =
    choose_false (u.tx_in_progress && leb u.tx_next_bit_time now) _ u (ground arith)

-- Nothing in the repository starts a frame, and without one any updates leave the port as it is.
updates_idle : (times : List ℕ) (u : Transmitter) → u.tx_in_progress ≡ false → updates times u ≡ u
updates_idle [] u e = refl
updates_idle (now ∷ times) u e = ap (updates times) (update_idle now u e) ∙ updates_idle times u e
