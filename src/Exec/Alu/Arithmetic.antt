-- ===== src/Exec/Alu/Arithmetic.antt =====
-- src/instructions.c: the arithmetic that pairs of handlers, or a handler and the ISA, agree on.
use risc_v_emulator.Prelude.{
  itself, ℕ, ◌+◌, ◌-◌, ◌*◌, ◌/◌, ◌%◌, ◌^◌, ◌<◌, ◌≡◌, ◌≢◌, ◌↔◌, refl, arith,
}
use risc_v_emulator.Prelude.{
  true, false, ◌==◌, ==_iff, ltb, lt→ltb, Bool-cases, inl, inr, if◌then◌else◌, mul64,
}
use native.Mathlib.Nat.{div-add-mod, mod-lt}
use risc_v_emulator.Cpu.{Cpu}
use risc_v_emulator.Exec.Fields.{rd, rs1, rs2}
use risc_v_emulator.Exec.Alu.{x1, x2, exec_divu, exec_remu, exec_mul, exec_add, exec_sub}

differs : (n : ℕ) → n ≢ 0 → (n == 0) ≡ false
differs n h = ground arith

divu_value :
    (c : Cpu) (i : ℕ)
    → rd i ≢ 0
    → (exec_divu c i).gpr (rd i) ≡ (if x2 c i == 0 then 2 ^ 64 - 1 else x1 c i / x2 c i)
unfolding exec_divu
divu_value c i h = rw (differs (rd i) h, itself (rd i)) refl

remu_value :
    (c : Cpu) (k r s : ℕ)
    → rd k ≢ 0
    → rs1 k ≡ r
    → rs2 k ≡ s
    → (exec_remu c k).gpr (rd k) ≡ (if c.gpr s == 0 then c.gpr r else c.gpr r % c.gpr s)
unfolding exec_remu
remu_value c k r s h e f = rw (differs (rd k) h, itself (rd k), ← e, ← f) refl

euclid :
    (a b : ℕ)
    → let q = if b == 0 then 2 ^ 64 - 1 else a / b in
      let r = if b == 0 then a else a % b in
      (b * q + r ≡ a) × ((if b == 0 then q == 2 ^ 64 - 1 else ltb r b) ≡ true)
euclid a b = elim (Bool-cases (b == 0)) [
  | inl e ↦ rw ((==_iff b 0).0 e) (omega arith, refl)
  | inr e ↦ rw e (div-add-mod a b, lt→ltb (a % b) b (mod-lt a (ground arith)))
]

-- `divu` and `remu` of the same registers, with destinations that are not register 0, give a
-- quotient and a remainder of Euclidean division: the remainder is below a divisor that is not 0,
-- and by 0 the quotient is the greatest number.
pub exec_divu-exec_remu :
    (c : Cpu) (i k : ℕ)
    → rd i ≢ 0
    → rd k ≢ 0
    → rs1 k ≡ rs1 i
    → rs2 k ≡ rs2 i
    → let q = (exec_divu c i).gpr (rd i) in
      let r = (exec_remu c k).gpr (rd k) in
      (x2 c i * q + r ≡ x1 c i) × ((if x2 c i == 0 then q == 2 ^ 64 - 1 else ltb r (x2 c i)) ≡ true)
exec_divu-exec_remu c i k h h' e₁ e₂ =
    rw (divu_value c i h, remu_value c k (rs1 i) (rs2 i) h' e₁ e₂) (euclid (x1 c i) (x2 c i))

-- `mul` into a register that is not register 0 gives the product modulo 2^64, as the ISA wants,
-- exactly where that is below 2^32.
pub exec_mul_iff :
    (c : Cpu) (i : ℕ)
    → rd i ≢ 0
    → ((exec_mul c i).gpr (rd i) ≡ mul64 (x1 c i) (x2 c i)) ↔ (mul64 (x1 c i) (x2 c i) < 2 ^ 32)
unfolding exec_mul
exec_mul_iff c i h = (λ e. ground arith, λ e. ground arith)

-- `sub` takes `add` back, for 64-bit words: where `add` writes a register that is neither
-- register 0 nor its addend, and `sub` subtracts the addend from it into a register that is not
-- register 0, the result is the first operand.
pub exec_sub-exec_add :
    (c : Cpu) (i k : ℕ)
    → rd i ≢ 0
    → rd k ≢ 0
    → rd i ≢ rs2 i
    → rs1 k ≡ rd i
    → rs2 k ≡ rs2 i
    → x1 c i < 2 ^ 64
    → x2 c i < 2 ^ 64
    → (exec_sub (exec_add c i) k).gpr (rd k) ≡ x1 c i
unfolding exec_sub exec_add
exec_sub-exec_add c i k h h' n e₁ e₂ p q = ground arith
