-- ===== src/Prelude/Flags.antt =====
-- Single bits of a word: tests, sets and clears, and the laws by which flag updates are read bit
-- by bit. The operations are shut; a proof uses the laws.
use Prim.Native.Nat.{
  ℕ, zero, suc, ◌+◌, ◌-◌, ◌*◌, ◌/◌, ◌%◌, ◌^◌, ◌≤◌, ◌<◌, bit_and, bit_or, min, max,
}
use mathlib.Core.Path.{◌≡◌, refl, ap, sym, ◌∙◌}
use mathlib.Core.Logic.{◌⊎◌}
use mathlib.Core.Bool.{Bool, true, false, ◌&&◌, ◌||◌, not}
use native.Mathlib.Nat.{mul_comm, pow-suc, one-le-pow, div-div-eq-div-mul, div-add-mod}
use native.Mathlib.Omega.{arith}
use risc_v_emulator.Prelude.Tests.{◌==◌, ltb, if◌then◌else◌}
use risc_v_emulator.Prelude.Bits.{bit_or_step, bit_and_step, bit_or-zero}

-- `x & (1 << k)`, as a condition.
unfoldable pub bit : ℕ → ℕ → Bool
bit x k = x / 2 ^ k % 2 == 1

-- `x | (1 << k)`.
unfoldable pub set_bit : ℕ → ℕ → ℕ
set_bit x k = if x / 2 ^ k % 2 == 1 then x else x + 2 ^ k

-- `x & ~(1L << k)`, by a mask that is as wide as `x`.
unfoldable pub clear_bit : ℕ → ℕ → ℕ
clear_bit x k = if x / 2 ^ k % 2 == 1 then x - 2 ^ k else x

-- `x & ~(1u << k)`: the complement is taken in 32 bits and extended by zeros, so that the upper
-- half of a 64-bit `x` is cleared too.
unfoldable pub clear_bit_u32 : ℕ → ℕ → ℕ
unfolding clear_bit
clear_bit_u32 x k = clear_bit (x % 2 ^ 32) k

half-div : (x k : ℕ) → x / 2 ^ suc k ≡ x / 2 / 2 ^ k
half-div x k = ground (arith, pow-suc 2 k, div-div-eq-div-mul x 2 (2 ^ k))

bit-suc : (x k : ℕ) → bit x (suc k) ≡ bit (x / 2) k
unfolding bit
bit-suc x k = rw half-div

set_bit-suc : (x k : ℕ) → set_bit x (suc k) ≡ set_bit (x / 2) k * 2 + x % 2
unfolding set_bit
set_bit-suc x k = ground (arith, half-div x k, pow-suc 2 k)

-- A word with bit `k` set is at least `2 ^ k`.
pow-le : (x p : ℕ) → x / p % 2 ≡ 1 → p ≤ x
pow-le x p h = grind arith

clear_bit-suc : (x k : ℕ) → clear_bit x (suc k) ≡ clear_bit (x / 2) k * 2 + x % 2
unfolding clear_bit
clear_bit-suc x k = ground (arith, half-div x k, pow-suc 2 k, pow-le (x / 2) (2 ^ k))

bit_zero : (x : ℕ) → bit x 0 ≡ (x % 2 == 1)
unfolding bit
bit_zero x = ground arith

set_bit_zero : (x : ℕ) → set_bit x 0 ≡ x / 2 * 2 + 1
unfolding set_bit
set_bit_zero x = ground arith

clear_bit_zero : (x : ℕ) → clear_bit x 0 ≡ x / 2 * 2
unfolding clear_bit
clear_bit_zero x = ground arith

-- A number given by its half and its lowest bit.
half_of : (q r : ℕ) → r < 2 → (q * 2 + r) / 2 ≡ q
half_of q r h = omega arith

pub bit-set_bit : (x k j : ℕ) → bit (set_bit x k) j ≡ (if k == j then true else bit x j)
bit-set_bit x zero zero = ground (arith, bit_zero (set_bit x 0), set_bit_zero x)
bit-set_bit x zero (suc j) =
    ground (arith, bit-suc (set_bit x 0) j, set_bit_zero x, bit-suc x j, half_of (x / 2) 1)
bit-set_bit x (suc k) zero =
    ground (arith, bit_zero (set_bit x (suc k)), set_bit-suc x k, bit_zero x)
bit-set_bit x (suc k) (suc j) = ground (
  arith,
  bit-suc (set_bit x (suc k)) j,
  set_bit-suc x k,
  half_of (set_bit (x / 2) k) (x % 2),
  bit-suc x j,
  bit-set_bit (x / 2) k j,
)

pub bit-clear_bit : (x k j : ℕ) → bit (clear_bit x k) j ≡ (if k == j then false else bit x j)
bit-clear_bit x zero zero = ground (arith, bit_zero (clear_bit x 0), clear_bit_zero x)
bit-clear_bit x zero (suc j) =
    ground (arith, bit-suc (clear_bit x 0) j, clear_bit_zero x, bit-suc x j, half_of (x / 2) 0)
bit-clear_bit x (suc k) zero =
    ground (arith, bit_zero (clear_bit x (suc k)), clear_bit-suc x k, bit_zero x)
bit-clear_bit x (suc k) (suc j) = ground (
  arith,
  bit-suc (clear_bit x (suc k)) j,
  clear_bit-suc x k,
  half_of (clear_bit (x / 2) k) (x % 2),
  bit-suc x j,
  bit-clear_bit (x / 2) k j,
)

mod-double : (x p : ℕ) → 0 < p → x % (2 * p) ≡ x / 2 % p * 2 + x % 2
mod-double x p h = omega (
  arith,
  div-add-mod x (2 * p),
  div-add-mod (x / 2) p,
  ap (λ (t : ℕ). p * t) (div-div-eq-div-mul x 2 p),
)

-- The low `w` bits.
mod-pow-suc : (x w : ℕ) → x % 2 ^ suc w ≡ x / 2 % 2 ^ w * 2 + x % 2
mod-pow-suc x w =
    rw (pow-suc 2 w, mul_comm (2 ^ w) 2) (mod-double x (2 ^ w) (one-le-pow w 2 (omega arith)))

pub zero-bit : (j : ℕ) → bit 0 j ≡ false
zero-bit zero = bit_zero 0
zero-bit (suc j) = bit-suc 0 j ∙ zero-bit j

pub bit-mod : (x w j : ℕ) → bit (x % 2 ^ w) j ≡ (ltb j w && bit x j)
bit-mod x zero j = ground (arith, zero-bit j)
bit-mod x (suc w) zero = ground (arith, bit_zero (x % 2 ^ suc w), bit_zero x, mod-pow-suc x w)
bit-mod x (suc w) (suc j) = ground (
  arith,
  bit-suc (x % 2 ^ suc w) j,
  mod-pow-suc x w,
  half_of (x / 2 % 2 ^ w) (x % 2),
  bit-suc x j,
  bit-mod (x / 2) w j,
)

pub bit-bit_or : (x y j : ℕ) → bit (bit_or x y) j ≡ (bit x j || bit y j)
bit-bit_or x y zero = ground (arith, bit_zero (bit_or x y), bit_zero x, bit_zero y, bit_or_step x y)
bit-bit_or x y (suc j) = ground (
  arith,
  bit-suc (bit_or x y) j,
  bit_or_step x y,
  half_of (bit_or (x / 2) (y / 2)) (max (x % 2) (y % 2)),
  bit-suc x j,
  bit-suc y j,
  bit-bit_or (x / 2) (y / 2) j,
)

pub bit-bit_and : (x y j : ℕ) → bit (bit_and x y) j ≡ (bit x j && bit y j)
bit-bit_and x y zero =
    ground (arith, bit_zero (bit_and x y), bit_zero x, bit_zero y, bit_and_step x y)
bit-bit_and x y (suc j) = ground (
  arith,
  bit-suc (bit_and x y) j,
  bit_and_step x y,
  half_of (bit_and (x / 2) (y / 2)) (min (x % 2) (y % 2)),
  bit-suc x j,
  bit-suc y j,
  bit-bit_and (x / 2) (y / 2) j,
)

-- A field `(v & (2 ^ w - 1)) << k` has no bit outside its place.
pub bit-field_outside : (v w k j : ℕ) → (j < k) ⊎ (k + w ≤ j) → bit (v % 2 ^ w * 2 ^ k) j ≡ false
bit-field_outside v w zero j h = ground (arith, bit-mod v w j)
bit-field_outside v w (suc k) zero h =
    ground (arith, bit_zero (v % 2 ^ w * 2 ^ suc k), ap (λ (t : ℕ). v % 2 ^ w * t) (pow-suc 2 k))
bit-field_outside v w (suc k) (suc j) h = ground (
  arith,
  bit-suc (v % 2 ^ w * 2 ^ suc k) j,
  ap (λ (t : ℕ). v % 2 ^ w * t) (pow-suc 2 k),
  half_of (v % 2 ^ w * 2 ^ k) 0,
  bit-field_outside v w k j,
)

-- Two words with the same bits are equal.
bit_ext_fuel : (n x y : ℕ) → x ≤ n → y ≤ n → ((j : ℕ) → bit x j ≡ bit y j) → x ≡ y
bit_ext_fuel zero x y p q h = omega arith
bit_ext_fuel (suc n) x y p q h = ground (
  arith,
  bit_zero x,
  bit_zero y,
  h 0,
  bit_ext_fuel n (x / 2) (y / 2) (omega arith) (omega arith)
      (λ j. sym (bit-suc x j) ∙ h (suc j) ∙ bit-suc y j),
)

pub bit_ext : (x y : ℕ) → ((j : ℕ) → bit x j ≡ bit y j) → x ≡ y
bit_ext x y h = bit_ext_fuel (x + y) x y (omega arith) (omega arith) h

pub bit-clear_bit_u32 :
    (x k j : ℕ) → bit (clear_bit_u32 x k) j ≡ (if k == j then false else ltb j 32 && bit x j)
unfolding clear_bit_u32
bit-clear_bit_u32 x k j = rw (bit-clear_bit (x % 2 ^ 32) k j, bit-mod x 32 j)

-- `set_bit` is `|` with a single bit.
pub set_bit_lem : (x k : ℕ) → bit_or x (2 ^ k) ≡ set_bit x k
set_bit_lem x zero = ground (arith, bit_or_step x 1, bit_or-zero (x / 2), set_bit_zero x)
set_bit_lem x (suc k) =
    ground (arith, bit_or_step x (2 ^ suc k), pow-suc 2 k, set_bit_lem (x / 2) k, set_bit-suc x k)

pub bit-if : (b : Bool) (x y j : ℕ) → bit (if b then x else y) j ≡ (if b then bit x j else bit y j)
bit-if true x y j = refl
bit-if false x y j = refl

add-suc_left : (k j : ℕ) → suc k + j ≡ suc (k + j)
add-suc_left k j = omega arith

-- Shifts move the bits.
pub bit-shr : (x k j : ℕ) → bit (x / 2 ^ k) j ≡ bit x (k + j)
bit-shr x zero j = ground arith
bit-shr x (suc k) j = rw (half-div x k, bit-shr (x / 2) k j, add-suc_left k j, bit-suc x (k + j))

pub bit-shl : (x k j : ℕ) → bit (x * 2 ^ k) (k + j) ≡ bit x j
bit-shl x zero j = ground arith
bit-shl x (suc k) j = rw add-suc_left (
    ground (
      arith,
      bit-suc (x * 2 ^ suc k) (k + j),
      ap (λ (t : ℕ). x * t) (pow-suc 2 k),
      half_of (x * 2 ^ k) 0,
      bit-shl x k j,
    ))

-- The bits of a word as a set of equations for `simp`.
pub ruleset flags = (bit-if, bit-set_bit, bit-clear_bit, bit-clear_bit_u32, bit-bit_or, bit-mod)

bit_and_zero : (x : ℕ) → bit_and x 0 ≡ 0
bit_and_zero x = bit_ext (bit_and x 0) 0 (λ j. ground (arith, bit-bit_and x 0 j, zero-bit j))

-- A mask of the low `w` bits is a remainder.
pub bit_and_mask : (w x : ℕ) → bit_and x (2 ^ w - 1) ≡ x % 2 ^ w
bit_and_mask zero x = ground (arith, bit_and_zero x)
bit_and_mask (suc w) x = ground (
  arith,
  bit_and_step x (2 ^ suc w - 1),
  bit_and_mask w (x / 2),
  pow-suc 2 w,
  one-le-pow w 2,
  mod-pow-suc x w,
)

-- `~x` in `w` bits.
pub bit-not : (w x j : ℕ) → x < 2 ^ w → j < w → bit (2 ^ w - 1 - x) j ≡ not (bit x j)
bit-not zero x j h k = absurd (omega arith)
bit-not (suc w) x zero h k = ground (arith, bit_zero (2 ^ suc w - 1 - x), bit_zero x, pow-suc 2 w)
bit-not (suc w) x (suc j) h k = ground (
  arith,
  bit-suc (2 ^ suc w - 1 - x) j,
  bit-suc x j,
  pow-suc 2 w,
  bit-not w (x / 2) j (omega (arith, pow-suc 2 w)) (omega arith),
)
