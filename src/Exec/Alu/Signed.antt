-- ===== src/Exec/Alu/Signed.antt =====
-- src/instructions.c, `exec_div`: signed division.
use risc_v_emulator.Prelude.{
  itself, ℕ, zero, suc, ◌+◌, ◌-◌, ◌*◌, ◌/◌, ◌%◌, ◌^◌, ◌<◌, ◌≤◌, ◌≡◌, ◌≢◌, ◌⊎◌, refl, arith, ap, sym,
  ◌∙◌, Bool, true, false, not, ◌==◌, ◌&&◌, ltb, Bool-cases, inl, inr, if◌then◌else◌,
}
use native.Mathlib.Nat.{div-add-mod, mod-lt}
use risc_v_emulator.Cpu.{Cpu}
use risc_v_emulator.Exec.Fields.{rd, rs2}
use risc_v_emulator.Exec.Alu.{x1, x2, exec_div, magnitude, negate, sdiv64}

both_negative : (x y b t w : ℕ) → x + b ≡ w → y + t ≡ w → x * y + w * (b + t) ≡ w * w + b * t
both_negative x y b t w e f =
    omega (arith, ap (λ (z : ℕ). x * z) f, ap (λ (z : ℕ). z * t) e, ap (λ (z : ℕ). z * w) e)

-- One of the factors is a complement.
one_negative : (x b y w : ℕ) → x + b ≡ w → x * y + b * y ≡ w * y
one_negative x b y w e = omega (arith, ap (λ (z : ℕ). z * y) e)

-- The distance from 0 of a pattern of 64 bits, read as a signed number.
unfoldable pub abs : ℕ → ℕ
abs x = if ltb x (2 ^ 63) then x else 2 ^ 64 - x

-- The quotient and the remainder of a division cut towards zero, as patterns of 64 bits: `b * q + r`
-- is `a`, the remainder is smaller than the divisor and not of the other sign than `a`, the same
-- holds of the distances from 0, and the quotient is negative exactly where one of the two numbers
-- is, unless it is 0 or the overflow.
pub record IsQuotient (a b q r : ℕ) : Type 0 where
  pub parts : (b * q + r) % 2 ^ 64 ≡ a
  pub small : magnitude r < magnitude b
  pub side : (r ≡ 0) ⊎ (ltb r (2 ^ 63) ≡ ltb a (2 ^ 63))
  pub product : abs b * abs q + abs r ≡ abs a
  pub below : abs r < abs b
  pub sign :
      (q ≡ 0)
      ⊎ ((ltb q (2 ^ 63) ≡ (if ltb b (2 ^ 63) then ltb a (2 ^ 63) else not (ltb a (2 ^ 63))))
          ⊎ ((a ≡ 2 ^ 63) × (b ≡ 2 ^ 64 - 1) × (q ≡ 2 ^ 63)))

abs_keeps : (x : ℕ) → x ≤ 2 ^ 63 → abs x ≡ x
unfolding abs
abs_keeps x h = ground arith

abs_upper : (x : ℕ) → 2 ^ 63 ≤ x → x < 2 ^ 64 → abs x ≡ 2 ^ 64 - x
unfolding abs
abs_upper x h k = ground arith

abs-negate : (x : ℕ) → x ≤ 2 ^ 63 → abs (negate x) ≡ x
unfolding abs
abs-negate x h = ground arith

abs_product :
    (a b q r x y s t : ℕ)
    → abs a ≡ x
    → abs b ≡ y
    → abs q ≡ t
    → abs r ≡ s
    → y * t + s ≡ x
    → abs b * abs q + abs r ≡ abs a
abs_product a b q r x y s t e f g h d = rw (e, f, g, h) d

abs_below : (b r y s : ℕ) → abs b ≡ y → abs r ≡ s → s < y → abs r < abs b
abs_below b r y s e f h = rw (e, f) h

-- The quotient of numbers of different signs is 0 or negative.
mixed_sign :
    (a b t : ℕ) (alike : Bool)
    → t ≤ 2 ^ 63
    → alike ≡ false
    → (negate t ≡ 0)
      ⊎ ((ltb (negate t) (2 ^ 63) ≡ alike)
          ⊎ ((a ≡ 2 ^ 63) × (b ≡ 2 ^ 64 - 1) × (negate t ≡ 2 ^ 63)))
mixed_sign a b t alike h e = elim (Bool-cases (t == 0)) [
  | inl z ↦ inl (ground arith)
  | inr z ↦ inr (inl (ground arith))
]

-- The quotient of two negative numbers is positive, or it is the overflow.
positive_sign :
    (a b t s : ℕ) (alike : Bool)
    → (2 ^ 64 - b) * t + s ≡ 2 ^ 64 - a
    → 2 ^ 63 ≤ a
    → a < 2 ^ 64
    → b < 2 ^ 64
    → alike ≡ true
    → (ltb t (2 ^ 63) ≡ alike) ⊎ ((a ≡ 2 ^ 63) × (b ≡ 2 ^ 64 - 1) × (t ≡ 2 ^ 63))
positive_sign a b t s alike d h k l f = elim (Bool-cases (ltb t (2 ^ 63))) [
  | inl e ↦ inl (e ∙ sym f)
  | inr e ↦
      let n = 2 ^ 64 - b in
      let over : 2 ^ 63 ≤ t = ground arith in
      let u = t - 2 ^ 63 in
      let parts : t ≡ 2 ^ 63 + u = omega arith in
      let product : n * t ≡ n * 2 ^ 63 + n * u = omega (arith, ap (λ (x : ℕ). n * x) parts) in
      let times : n ≤ n * u + n = omega arith in
      let one : n ≡ 1 = omega (arith, product, d) in
      let at_u : n * u ≡ u = ap (λ (x : ℕ). x * u) one ∙ omega arith in
      inr (omega (arith, product, d), omega (arith, one), omega (arith, product, d, at_u))
]

-- `q = -(A / B)` with `b = -B`; `a = A`.
parts_by_negative :
    (a b t s : ℕ)
    → (2 ^ 64 - b) * t + s ≡ a
    → a < 2 ^ 63
    → b < 2 ^ 64
    → t ≤ a
    → (b * negate t + s) % 2 ^ 64 ≡ a
parts_by_negative a b zero s d h k l = ground arith
parts_by_negative a b (suc t) s d h k l =
    let q = 2 ^ 64 - suc t in
    let neg : negate (suc t) ≡ q = omega arith in
    let product = both_negative b q (2 ^ 64 - b) (suc t) (2 ^ 64) (omega arith) (omega arith) in
    rw neg (omega (arith, product))

-- `a = -A`, `b = B`.
parts_of_negative :
    (a b t s : ℕ)
    → b * t + s ≡ 2 ^ 64 - a
    → a < 2 ^ 64
    → 2 ^ 63 ≤ a
    → s < 2 ^ 64
    → t ≤ 2 ^ 63
    → (b * negate t + negate s) % 2 ^ 64 ≡ a
parts_of_negative a b zero s d h k l n = ground arith
parts_of_negative a b (suc t) s d h k l n =
    let q = 2 ^ 64 - suc t in
    let neg : negate (suc t) ≡ q = omega arith in
    let product = one_negative q (suc t) b (2 ^ 64) (omega arith) in
    rw neg (ground (arith, product))

-- `a = -A`, `b = -B`.
parts_of_both :
    (a b t s : ℕ)
    → (2 ^ 64 - b) * t + s ≡ 2 ^ 64 - a
    → a < 2 ^ 64
    → 2 ^ 63 ≤ a
    → b < 2 ^ 64
    → s < 2 ^ 64
    → (b * t + negate s) % 2 ^ 64 ≡ a
parts_of_both a b t s d h k l n =
    let product = one_negative b (2 ^ 64 - b) t (2 ^ 64) (omega arith) in ground (arith, product)

quotient_le : (a b : ℕ) → 0 < b → a / b ≤ a
quotient_le a zero h = absurd (omega arith)
quotient_le a (suc b) h = let d = div-add-mod a (suc b) in omega (arith, d)

side_of_negative :
    (a s : ℕ)
    → 2 ^ 63 ≤ a
    → s < 2 ^ 63
    → (negate s ≡ 0) ⊎ (ltb (negate s) (2 ^ 63) ≡ ltb a (2 ^ 63))
side_of_negative a s h k = elim (Bool-cases (s == 0)) [
  | inl z ↦ inl (ground arith)
  | inr z ↦ inr (ground arith)
]

small_of_negative : (b s : ℕ) → s < magnitude b → s < 2 ^ 63 → magnitude (negate s) < magnitude b
small_of_negative b s h k = ground arith

module _ (a b : ℕ) (a_fits : a < 2 ^ 64) (b_fits : b < 2 ^ 64) (b_pos : b ≢ 0) where
  -- The remainder with the sign of `a`.
  abbrev pub signed_rest : ℕ
  signed_rest = let s = magnitude a % magnitude b in if ltb a (2 ^ 63) then s else negate s

  pub sdiv64-IsQuotient : IsQuotient a b (sdiv64 a b) signed_rest
  sdiv64-IsQuotient =
      let p = 2 ^ 64 - a in
      let n = 2 ^ 64 - b in
      let n_pos : 0 < n = omega arith in
      let pos : 0 < b = ground arith in
      elim (Bool-cases (ltb a (2 ^ 63))) [
        | inl x ↦ elim (Bool-cases (ltb b (2 ^ 63))) [
          | inl y ↦
              let l = mod-lt a {m = b} pos in
              rw (x, y)
                (record {
                  parts = ground (arith, div-add-mod a b);
                  small = ground arith;
                  side = inr (ground arith);
                  product =
                      abs_product a b (a / b) (a % b) a b (a % b) (a / b)
                        (abs_keeps a (ground arith)) (abs_keeps b (ground arith))
                        (abs_keeps (a / b) (ground (arith, quotient_le a b pos)))
                        (abs_keeps (a % b) (ground arith)) (div-add-mod a b);
                  below =
                      abs_below b (a % b) b (a % b) (abs_keeps b (ground arith))
                        (abs_keeps (a % b) (ground arith)) l;
                  sign = inr (inl (ground (arith, quotient_le a b pos)));
                })
          | inr y ↦
              let l = mod-lt a {m = n} n_pos in
              rw (x, y)
                (record {
                  parts =
                      parts_by_negative a b (a / n) (a % n) (div-add-mod a n) (ground arith) b_fits
                        (quotient_le a n n_pos);
                  small = ground arith;
                  side = inr (ground arith);
                  product =
                      abs_product a b (negate (a / n)) (a % n) a n (a % n) (a / n)
                        (abs_keeps a (ground arith)) (abs_upper b (ground arith) b_fits)
                        (abs-negate (a / n) (ground (arith, quotient_le a n n_pos)))
                        (abs_keeps (a % n) (ground arith)) (div-add-mod a n);
                  below =
                      abs_below b (a % n) n (a % n) (abs_upper b (ground arith) b_fits)
                        (abs_keeps (a % n) (ground arith)) l;
                  sign =
                      mixed_sign a b (a / n) _ (ground (arith, quotient_le a n n_pos))
                        (rw (x, y) refl);
                })
        ]
        | inr x ↦ elim (Bool-cases (ltb b (2 ^ 63))) [
          | inl y ↦
              let l = mod-lt p {m = b} pos in
              let le = quotient_le p b pos in
              rw (x, y)
                (record {
                  parts =
                      parts_of_negative a b (p / b) (p % b) (div-add-mod p b) a_fits (ground arith)
                        (ground arith) (ground arith);
                  small = small_of_negative b (p % b) (ground arith) (ground arith);
                  side = side_of_negative a (p % b) (ground arith) (ground arith);
                  product =
                      abs_product a b (negate (p / b)) (negate (p % b)) p b (p % b) (p / b)
                        (abs_upper a (ground arith) a_fits) (abs_keeps b (ground arith))
                        (abs-negate (p / b) (ground arith)) (abs-negate (p % b) (ground arith))
                        (div-add-mod p b);
                  below =
                      abs_below b (negate (p % b)) b (p % b) (abs_keeps b (ground arith))
                        (abs-negate (p % b) (ground arith)) l;
                  sign = mixed_sign a b (p / b) _ (ground arith) (rw (x, y) refl);
                })
          | inr y ↦
              let l = mod-lt p {m = n} n_pos in
              rw (x, y)
                (record {
                  parts =
                      parts_of_both a b (p / n) (p % n) (div-add-mod p n) a_fits (ground arith)
                        b_fits (ground arith);
                  small = small_of_negative b (p % n) (ground arith) (ground arith);
                  side = side_of_negative a (p % n) (ground arith) (ground arith);
                  product =
                      abs_product a b (p / n) (negate (p % n)) p n (p % n) (p / n)
                        (abs_upper a (ground arith) a_fits) (abs_upper b (ground arith) b_fits)
                        (abs_keeps (p / n) (ground (arith, quotient_le p n n_pos)))
                        (abs-negate (p % n) (ground arith)) (div-add-mod p n);
                  below =
                      abs_below b (negate (p % n)) n (p % n) (abs_upper b (ground arith) b_fits)
                        (abs-negate (p % n) (ground arith)) l;
                  sign = inr (
                      positive_sign a b (p / n) (p % n) _ (div-add-mod p n) (ground arith) a_fits
                        b_fits (rw (x, y) refl));
                })
        ]
      ]

divided :
    (a b : ℕ)
    → b ≢ 0
    → (if b == 0 then 2 ^ 64 - 1 else if a == 2 ^ 63 && b == 2 ^ 64 - 1 then a else sdiv64 a b)
      ≡ sdiv64 a b
divided a b h =
    let nonzero : b == 0 ≡ false = ground arith in
    elim (Bool-cases (a == 2 ^ 63 && b == 2 ^ 64 - 1)) [
      | inl e ↦
          let at_a : a ≡ 2 ^ 63 = ground arith in
          let at_b : b ≡ 2 ^ 64 - 1 = ground arith in rw (at_a, at_b) refl
      | inr e ↦ rw (nonzero, e) refl
    ]

-- `div` of 64-bit registers, whose divisor is not 0 and not register 0, into a register that is not
-- register 0, is the signed division of the ISA: there is a remainder, 0 or of the dividend's sign and
-- nearer to 0 than the divisor, that with the product of quotient and divisor makes up the dividend, as
-- patterns of 64 bits and by the distances from 0; the quotient is 0, or negative exactly where one of
-- the two numbers is, or the least number where that is divided by -1.
pub exec_div-IsQuotient :
    (c : Cpu) (i : ℕ)
    → rd i ≢ 0
    → rs2 i ≢ 0
    → x1 c i < 2 ^ 64
    → x2 c i < 2 ^ 64
    → x2 c i ≢ 0
    → (r : ℕ) × IsQuotient (x1 c i) (x2 c i) ((exec_div c i).gpr (rd i)) r
unfolding exec_div
exec_div-IsQuotient c i h k p q n =
    let source : rs2 i == 0 ≡ false = ground arith in
    let target : rd i == 0 ≡ false = ground arith in
    let value = divided (x1 c i) (x2 c i) n in
    (
      signed_rest (x1 c i) (x2 c i) p q n,
      rw (source, target, itself (rd i), value) (sdiv64-IsQuotient (x1 c i) (x2 c i) p q n),
    )

-- Division by register 0 gives 0 in place of -1.
pub exec_div-zero : (c : Cpu) (i : ℕ) → rd i ≢ 0 → rs2 i ≡ 0 → (exec_div c i).gpr (rd i) ≡ 0
unfolding exec_div
exec_div-zero c i h k =
    let source : rs2 i == 0 ≡ true = ground arith in
    let target : rd i == 0 ≡ false = ground arith in rw (source, target, itself (rd i)) refl
