-- ===== src/Exec/System/Csr.antt =====
-- src/instructions.c, `exec_csr`: what the CSR instructions leave in the CSR and in `rd`.
use risc_v_emulator.Prelude.{itself, ℕ, ◌^◌, ◌<◌, ◌≡◌, inl, inr, refl, arith, ◌∙◌, ap, Bool-cases}
use risc_v_emulator.Prelude.{
  Bool, true, false, not, ◌==◌, ==_iff, ◌&&◌, ◌||◌, if◌then◌else◌, bits, bit, bit_or, not64, update,
}
use risc_v_emulator.Prelude.Flags.{bit-bit_or, bit-bit_and, bit-not, zero-bit}
use risc_v_emulator.Cpu.{Cpu, write_gpr}
use risc_v_emulator.Exec.Fields.{rd, rs1, funct3}
use risc_v_emulator.Exec.System.{exec_csr}

-- The number of the CSR.
abbrev pub csr_of : ℕ → ℕ
csr_of i = bits i 20 12

-- The operand that `csrrs` and `csrrc` read after `rd` was written.
abbrev pub operand : Cpu → ℕ → ℕ
operand c i = if rd i == rs1 i && not (rd i == 0) then c.csr (csr_of i) else c.gpr (rs1 i)

operand_lem : (c : Cpu) (i : ℕ) → (write_gpr c (rd i) (c.csr (csr_of i))).gpr (rs1 i) ≡ operand c i
operand_lem c i = elim (Bool-cases (rd i == 0)) [
  | inl e ↦ rw e (ground arith)
  | inr e ↦ rw e (ground arith)
]

same_csr : (i : ℕ) → bits (csr_of i) 0 12 ≡ csr_of i
same_csr i = omega arith

operand_zero : (c : Cpu) (i : ℕ) → c.gpr 0 ≡ 0 → rs1 i ≡ 0 → operand c i ≡ 0
operand_zero c i z e = rw e (ground arith)

or_nothing : (a : Bool) → a ≡ (a || false)
or_nothing true = refl
or_nothing false = refl

-- `csrrw` swaps: the CSR takes `rs1`, and `rd`, if it is not register 0, takes the old value.
pub exec_csr-csrrw :
    (c : Cpu) (i : ℕ)
    → funct3 i ≡ 1
    → ((exec_csr c i).csr (csr_of i) ≡ c.gpr (rs1 i))
      × ((exec_csr c i).gpr (rd i) ≡ (if rd i == 0 then c.gpr (rd i) else c.csr (csr_of i)))
unfolding exec_csr
exec_csr-csrrw c i f = rw (f, same_csr i) (ground arith, ground arith)

set_bits :
    (c : Cpu) (i j : ℕ)
    → c.gpr 0 ≡ 0
    → let c₁ = write_gpr c (rd i) (c.csr (csr_of i)) in
      let set : Cpu = if rs1 i == 0 then c₁ else record c₁ {
        csr = update c₁.csr (csr_of i) (bit_or (c.csr (csr_of i)) (c₁.gpr (rs1 i)));
      } in
      bit (set.csr (csr_of i)) j ≡ (bit (c.csr (csr_of i)) j || bit (operand c i) j)
set_bits c i j z = elim (Bool-cases (rs1 i == 0)) [
  | inl e ↦
      rw (e, operand_zero c i z ((==_iff (rs1 i) 0).0 e), zero-bit j)
        (or_nothing (bit (c.csr (csr_of i)) j))
  | inr e ↦
      rw (e, operand_lem c i, itself (csr_of i)) (bit-bit_or (c.csr (csr_of i)) (operand c i) j)
]

-- `csrrs`, where register 0 holds 0, sets in the CSR the bits of its operand, which is `rs1`
-- unless `rd` is the same register and not register 0: then it is the CSR's old value, which `rd`
-- has by then, so that the CSR is unchanged.
pub exec_csr-csrrs :
    (c : Cpu) (i j : ℕ)
    → c.gpr 0 ≡ 0
    → funct3 i ≡ 2
    → bit ((exec_csr c i).csr (csr_of i)) j ≡ (bit (c.csr (csr_of i)) j || bit (operand c i) j)
unfolding exec_csr
exec_csr-csrrs c i j z f = rw (f, same_csr i) (set_bits c i j z)

-- `csrrc`, of an operand that is a 64-bit word, clears in the low 64 bits of the CSR the bits of
-- the operand, which is that of `csrrs`: where `rd` and `rs1` are one register and not register
-- 0, it is the CSR's old value, so that every bit is cleared.
pub exec_csr-csrrc :
    (c : Cpu) (i j : ℕ)
    → operand c i < 2 ^ 64
    → j < 64
    → funct3 i ≡ 3
    → bit ((exec_csr c i).csr (csr_of i)) j
      ≡ (bit (c.csr (csr_of i)) j && not (bit (operand c i) j))
unfolding exec_csr
exec_csr-csrrc c i j fits h f =
    rw (f, same_csr i, operand_lem c i, itself (csr_of i))
      (bit-bit_and (c.csr (csr_of i)) (not64 (operand c i)) j
        ∙ ap (λ b. bit (c.csr (csr_of i)) j && b) (bit-not 64 (operand c i) j fits h))
