-- ===== src/Prelude/Bits.antt =====
-- `|` and `&` as arithmetic: the digit equations, and `|` of fields that do not overlap.
use Prim.Native.Nat.{ℕ, zero, suc, ◌+◌, ◌*◌, ◌/◌, ◌%◌, ◌^◌, ◌≤◌, ◌<◌, min, max}
use Prim.Native.Nat.{bit_and, bit_or, digits, bitwise, bit_and-bitwise, bit_or-bitwise}
use mathlib.Core.Path.{◌≡◌, refl, sym, ◌∙◌}
use native.Mathlib.Nat.{le_refl, pow-suc}
use native.Mathlib.Omega.{arith}
use mathlib.Core.Logic.{inl, inr}
use risc_v_emulator.Prelude.Tests.{◌==◌, ==_iff, Bool-cases}

-- The library defines the native operations by rounds on binary digits. Rounds beyond the size of
-- the first operand change nothing, so that the number of rounds may be the operand itself.
module _ (base : ℕ → ℕ) (join : ℕ → ℕ → ℕ) where
  extra_round :
      (rounds x y : ℕ)
      → x ≤ rounds
      → digits base join (suc rounds) x y ≡ digits base join rounds x y
  extra_round zero zero y fits = refl
  extra_round (suc rounds) zero y fits = refl
  extra_round zero (suc x) y fits = absurd (omega arith)
  extra_round (suc rounds) (suc x) y fits =
      rw (extra_round rounds (suc x / 2) (y / 2) (omega arith))

  enough_rounds :
      (rounds x y : ℕ) → x ≤ rounds → digits base join rounds x y ≡ digits base join x x y
  enough_rounds zero zero y fits = refl
  enough_rounds zero (suc x) y fits = absurd (omega arith)
  enough_rounds (suc rounds) x y fits = elim (Bool-cases (x == suc rounds)) [
    | inl e ↦ rw ((==_iff x (suc rounds)).0 e) refl
    | inr e ↦ extra_round rounds x y (ground arith) ∙ enough_rounds rounds x y (ground arith)
  ]

  lowest_digit :
      (x y : ℕ)
      → bitwise base join (suc x) y
        ≡ join (suc x % 2) (y % 2) + 2 * bitwise base join (suc x / 2) (y / 2)
  lowest_digit x y = omega (arith, enough_rounds x (suc x / 2) (y / 2) (omega arith))

pub bit_or_step : (x y : ℕ) → bit_or x y ≡ max (x % 2) (y % 2) + 2 * bit_or (x / 2) (y / 2)
bit_or_step (suc x) y = simp bit_or-bitwise (lowest_digit (λ n. n) max x y)
bit_or_step zero y = simp bit_or-bitwise (omega arith)

pub bit_and_step : (x y : ℕ) → bit_and x y ≡ min (x % 2) (y % 2) + 2 * bit_and (x / 2) (y / 2)
bit_and_step (suc x) y = simp bit_and-bitwise (lowest_digit (λ n. 0) min x y)
bit_and_step zero y = simp bit_and-bitwise (omega arith)

bit_or-zero_fuel : (n a : ℕ) → a ≤ n → bit_or a 0 ≡ a
bit_or-zero_fuel n zero h = refl
bit_or-zero_fuel zero (suc a) h = absurd (omega arith)
bit_or-zero_fuel (suc n) (suc a) h =
    omega (arith, bit_or_step (suc a) 0, bit_or-zero_fuel n (suc a / 2) (omega arith))

pub bit_or-zero : (a : ℕ) → bit_or a 0 ≡ a
bit_or-zero a = bit_or-zero_fuel a a (le_refl a)

shift_twice : (x w : ℕ) → x * 2 ^ suc w ≡ x * 2 ^ w + x * 2 ^ w
shift_twice x w = rw (pow-suc 2 w) (ground arith)

-- `(high << w) | low` is a sum when `low` has at most `w` bits.
pub bit_or_fields : (w high low : ℕ) → low < 2 ^ w → bit_or (high * 2 ^ w) low ≡ high * 2 ^ w + low
bit_or_fields (suc w) high low small =
    let below = bit_or_fields w high (low / 2) (omega (arith, pow-suc 2 w)) in
    ground (arith, below, shift_twice high w, bit_or_step (high * 2 ^ suc w) low)
bit_or_fields zero high low small = ground (arith, bit_or-zero high)

zero-bit_or : (b : ℕ) → bit_or 0 b ≡ b
zero-bit_or b = bit_or-bitwise 0 b

bit_or_comm_fuel : (n a b : ℕ) → a ≤ n → b ≤ n → bit_or a b ≡ bit_or b a
bit_or_comm_fuel n zero b h k = zero-bit_or b ∙ sym (bit_or-zero b)
bit_or_comm_fuel zero (suc a) b h k = absurd (omega arith)
bit_or_comm_fuel (suc n) (suc a) b h k = omega (
  arith,
  bit_or_step (suc a) b,
  bit_or_step b (suc a),
  bit_or_comm_fuel n (suc a / 2) (b / 2) (omega arith) (omega arith),
)

pub bit_or_comm : (a b : ℕ) → bit_or a b ≡ bit_or b a
bit_or_comm a b = bit_or_comm_fuel (a + b) a b (omega arith) (omega arith)

pub bit_or_fields_flip : (k q r : ℕ) → r < 2 ^ k → bit_or r (q * 2 ^ k) ≡ q * 2 ^ k + r
bit_or_fields_flip k q r fits = bit_or_comm r (q * 2 ^ k) ∙ bit_or_fields k q r fits

-- `|` of a field into a gap is a sum: `b` has at most `w` bits, and the other operand none of the
-- `w` bits from `k` on.
bit_or_gap :
    (k w h b l : ℕ)
    → b < 2 ^ w
    → l < 2 ^ k
    → bit_or (h * 2 ^ w * 2 ^ k + l) (b * 2 ^ k) ≡ h * 2 ^ w * 2 ^ k + l + b * 2 ^ k
bit_or_gap zero w h b l p q = ground (arith, bit_or_fields w h b p)
bit_or_gap (suc k) w h b l p q = ground (
  arith,
  bit_or_step (h * 2 ^ w * 2 ^ suc k + l) (b * 2 ^ suc k),
  shift_twice (h * 2 ^ w) k,
  shift_twice b k,
  bit_or_gap k w h b (l / 2) p (omega arith),
)

pub bit_or_apart :
    (k w h b l x y : ℕ)
    → x ≡ h * 2 ^ w * 2 ^ k + l
    → y ≡ b * 2 ^ k
    → b < 2 ^ w
    → l < 2 ^ k
    → bit_or x y ≡ x + y
bit_or_apart k w h b l x y e f p q = rw (e, f) (bit_or_gap k w h b l p q)
