-- ===== src/Prelude/Word.antt =====
-- Casts, shifts, bit fields and wrapping arithmetic of the C types. A value of an unsigned w-bit
-- type is a number; a signed value is kept as its bit pattern.
use Prim.Native.Nat.{ℕ, ◌+◌, ◌-◌, ◌*◌, ◌/◌, ◌%◌, ◌^◌}
use mathlib.Core.Bool.{Bool}
use risc_v_emulator.Prelude.Tests.{ltb, if◌then◌else◌}

abbrev pub u8 : ℕ → ℕ
u8 n = n % 2 ^ 8

abbrev pub u16 : ℕ → ℕ
u16 n = n % 2 ^ 16

abbrev pub u32 : ℕ → ℕ
u32 n = n % 2 ^ 32

abbrev pub u64 : ℕ → ℕ
u64 n = n % 2 ^ 64

infixl 75 ◌<<<◌ ◌>>>◌
abbrev pub ◌<<<◌ : ℕ → ℕ → ℕ
x <<< k = x * 2 ^ k

abbrev pub ◌>>>◌ : ℕ → ℕ → ℕ
x >>> k = x / 2 ^ k

-- `(x >> lo) & (2 ^ width - 1)`.
abbrev pub bits : ℕ → ℕ → ℕ → ℕ
bits x lo width = x / 2 ^ lo % 2 ^ width

-- uint64_t addition, subtraction, multiplication.
abbrev pub add64 : ℕ → ℕ → ℕ
add64 a b = (a + b) % 2 ^ 64

abbrev pub sub64 : ℕ → ℕ → ℕ
sub64 a b = (a + 2 ^ 64 - b) % 2 ^ 64

abbrev pub mul64 : ℕ → ℕ → ℕ
mul64 a b = a * b % 2 ^ 64

abbrev pub not64 : ℕ → ℕ
not64 a = 2 ^ 64 - 1 - a

-- The low `w` bits of `x`, read as a signed number and extended to 64 bits.
abbrev pub sext : ℕ → ℕ → ℕ
sext w x = if ltb (x % 2 ^ w) (2 ^ w / 2) then x % 2 ^ w else x % 2 ^ w + 2 ^ 64 - 2 ^ w

-- `(int64_t)a < (int64_t)b`: signed patterns are ordered as their images under a flip of the
-- sign bit.
abbrev pub flip64 : ℕ → ℕ
flip64 a = (a + 2 ^ 63) % 2 ^ 64

abbrev pub slt64 : ℕ → ℕ → Bool
slt64 a b = ltb (flip64 a) (flip64 b)

-- `(int64_t)a >> k` and `(int32_t)a >> k`: the sign bit is shifted in.
abbrev pub sar64 : ℕ → ℕ → ℕ
sar64 a k = if ltb a (2 ^ 63) then a / 2 ^ k else 2 ^ 64 - 1 - (2 ^ 64 - 1 - a) / 2 ^ k
