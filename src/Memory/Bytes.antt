-- ===== src/Memory/Bytes.antt =====
-- src/memory.c: the byte loops read and write little-endian numbers.
use native.Mathlib.Nat.{one-le-pow, div-add-mod, div-div-eq-div-mul, pow-le-pow_right}
use native.Mathlib.Numerals.{towards_suc}
use risc_v_emulator.Prelude.{ℕ, zero, suc, ◌+◌, ◌-◌, ◌*◌, ◌/◌, ◌%◌, ◌^◌, ◌≤◌, ◌<◌, ◌≡◌, refl, arith}
use risc_v_emulator.Prelude.{ap, update, leb, ltb, ◌&&◌, if◌then◌else◌, bit_or, u64}
use risc_v_emulator.Prelude.Bits.{bit_or_fields_flip}
use risc_v_emulator.Memory.{read_loop, write_loop}

-- The number whose `n` bytes stand from `off` on, the lowest first.
abbrev pub number_at : (ℕ → ℕ) → ℕ → ℕ → ℕ
number_at mem off zero = 0
number_at mem off (suc n) = mem off + 256 * number_at mem (off + 1) n

pow-byte : (i : ℕ) → 2 ^ (8 * (i + 1)) ≡ 256 * 2 ^ (8 * i)
pow-byte i = rw (eight i) (simp towards_suc (omega arith))
  where
    eight : (i : ℕ) → 8 * (i + 1) ≡ 8 * i + 8
    eight i = omega arith

pub write_loop-at :
    (off value left i : ℕ) (mem : ℕ → ℕ) (j : ℕ)
    → write_loop off value left i mem j ≡ (
        if leb (off + i) j && ltb j (off + i + left)
        then value / 2 ^ (8 * (j - off)) % 256
        else mem j)
unfolding write_loop
write_loop-at off value zero i mem j = ground arith
write_loop-at off value (suc left) i mem j = ground (
  arith,
  write_loop-at off value left (i + 1) (update mem (off + i) (value / 2 ^ (8 * i) % 256)) j,
)

-- One byte more below `2 ^ 64`.
byte-fits : (b i : ℕ) → b < 256 → i < 8 → b * 2 ^ (8 * i) < 2 ^ 64
byte-fits b i hb hi =
    let p : 2 ^ (8 * i) ≤ 2 ^ 56 = pow-le-pow_right {n = 2} (omega arith) {j = 56} (omega arith) in
    grind arith

or_byte :
    (val b i : ℕ)
    → b < 256
    → i < 8
    → val < 2 ^ (8 * i)
    → bit_or val (u64 (b * 2 ^ (8 * i))) ≡ val + b * 2 ^ (8 * i)
or_byte val b i hb hi fits = ground (arith, byte-fits b i, bit_or_fields_flip (8 * i) b val)

or_byte-lt : (val b i : ℕ) → b < 256 → val < 2 ^ (8 * i) → val + b * 2 ^ (8 * i) < 2 ^ (8 * (i + 1))
or_byte-lt val b i hb fits = rw (pow-byte i) (grind arith)

pub read_loop-number_at :
    (mem : ℕ → ℕ) (off left i val : ℕ)
    → ((j : ℕ) → mem j < 256)
    → i + left ≤ 8
    → val < 2 ^ (8 * i)
    → read_loop mem off left i val ≡ val + 2 ^ (8 * i) * number_at mem (off + i) left
unfolding read_loop
read_loop-number_at mem off zero i val bytes small fits = ground arith
read_loop-number_at mem off (suc left) i val bytes small fits =
    rw (or_byte val (mem (off + i)) i (bytes (off + i)) (omega arith) fits) (
      omega (
        arith,
        read_loop-number_at mem off left (i + 1) (val + mem (off + i) * 2 ^ (8 * i)) bytes
            (omega arith) (or_byte-lt val (mem (off + i)) i (bytes (off + i)) fits),
        ap (λ (t : ℕ). t * number_at mem (off + i + 1) left) (pow-byte i),
        ap (λ (t : ℕ). 2 ^ (8 * (i + 1)) * number_at mem t left) (next off i),
      ))
  where
    next : (a b : ℕ) → a + (b + 1) ≡ a + b + 1
    next a b = omega arith

mod-byte : (x p : ℕ) → 0 < p → x % (256 * p) ≡ x % 256 + 256 * (x / 256 % p)
mod-byte x p h = omega (
  arith,
  div-add-mod x (256 * p),
  div-add-mod (x / 256) p,
  ap (λ (t : ℕ). p * t) (div-div-eq-div-mul x 256 p),
)

div-byte : (v k : ℕ) → v / 256 / 2 ^ (8 * k) ≡ v / 2 ^ (8 * (k + 1))
div-byte v k = rw (pow-byte k) (div-div-eq-div-mul v 256 (2 ^ (8 * k)))

-- Bytes that are those of `v` make up `v`.
pub number_at_bytes :
    (mem : ℕ → ℕ) (off v n : ℕ)
    → ((k : ℕ) → k < n → mem (off + k) ≡ v / 2 ^ (8 * k) % 256)
    → number_at mem off n ≡ v % 2 ^ (8 * n)
number_at_bytes mem off v zero h = omega arith
number_at_bytes mem off v (suc n) h = ground (
  arith,
  h 0,
  number_at_bytes mem (off + 1) (v / 256) n
      (λ k p. ground (arith, h (k + 1), div-byte v k, ap mem (next k))),
  mod-byte v (2 ^ (8 * n)) (one-le-pow (8 * n) 2 (omega arith)),
  pow-byte n,
)
  where
    next : (k : ℕ) → off + 1 + k ≡ off + (k + 1)
    next k = omega arith

pub number_at_ext :
    (f g : ℕ → ℕ) (off n : ℕ)
    → ((k : ℕ) → k < n → f (off + k) ≡ g (off + k))
    → number_at f off n ≡ number_at g off n
number_at_ext f g off zero h = refl
number_at_ext f g off (suc n) h = ground (
  arith,
  h 0,
  number_at_ext f g (off + 1) n (λ k p. ground (arith, h (k + 1), ap f (next k), ap g (next k))),
)
  where
    next : (k : ℕ) → off + 1 + k ≡ off + (k + 1)
    next k = omega arith

pub number_at-lt :
    (mem : ℕ → ℕ) (off n : ℕ) → ((j : ℕ) → mem j < 256) → number_at mem off n < 2 ^ (8 * n)
number_at-lt mem off zero h = omega arith
number_at-lt mem off (suc n) h = ground (arith, h off, number_at-lt mem (off + 1) n h, pow-byte n)
