-- ===== src/Decode/Branches.antt =====
-- src/decode.c and src/instructions.c: branches and `jal` from their encodings to the next state.
use risc_v_emulator.Prelude.{
  ℕ, ◌%◌, ◌^◌, ◌<◌, Bool, true, false, ◌==◌, ◌||◌, not, ltb, leb, if◌then◌else◌,
}
use risc_v_emulator.Prelude.{
  ◌≡◌, ◌⊎◌, ◌↔◌, inl, inr, refl, arith, ◌∙◌, ap, List, Option, none, some, bits, add64, slt64, sext,
}
use risc_v_emulator.Cpu.{Cpu, write_gpr}
use risc_v_emulator.Machine.{set_cpu, Machine, Region, Undefined}
use risc_v_emulator.Exec.Fields.{rd, rs1, rs2, imm_b, imm_b', imm_j}
use risc_v_emulator.Exec.Branch
use risc_v_emulator.Exec.Branch.{branch}
use risc_v_emulator.Exec.Branch.Encoding.{encode_b, encode_j, encode_b_lem, encode_j_lem}
use risc_v_emulator.Decode.{b_type, call_opcode, handle_opcode, decode_and_execute, on_cpu?}
use risc_v_emulator.Decode.Targets.{takes, branch_target, target_blt, target_bge}

abbrev pub is_branch : ℕ → Bool
is_branch f3 = (f3 == 0 || f3 == 1) || ((f3 == 4 || f3 == 5) || (f3 == 6 || f3 == 7))

is_branch_cases :
    (f3 : ℕ) → is_branch f3 ≡ true → (f3 ≡ 0) ⊎ (f3 ≡ 1) ⊎ (f3 ≡ 4) ⊎ (f3 ≡ 5) ⊎ (f3 ≡ 6) ⊎ (f3 ≡ 7)
is_branch_cases f3 h = ground arith

-- The condition that the handlers test, and the bits of the offset that they extend.
abbrev tested : ℕ → ℕ → ℕ → Bool
tested f3 a b = if f3 == 5 then not (ltb a b) else takes f3 a b

abbrev width : ℕ → ℕ
width f3 = if f3 == 4 then 12 else 13

leb-not : (a b : ℕ) → leb b a ≡ not (ltb a b)
leb-not a b = ground arith

b_type_lem :
    (f3 r1 r2 k : ℕ) (c : Cpu) (i : ℕ)
    → is_branch f3 ≡ true
    → rs1 i ≡ r1
    → rs2 i ≡ r2
    → imm_b i ≡ k
    → imm_b' i ≡ k
    → b_type f3 c i ≡ some (branch c (tested f3 (c.gpr r1) (c.gpr r2)) (sext (width f3) k))
unfolding b_type Branch.exec_beq Branch.exec_bne Branch.exec_blt Branch.exec_bge Branch.exec_bltu
    Branch.exec_bgeu
b_type_lem f3 r1 r2 k c i h a b e e' = elim (is_branch_cases f3 h) [
  | inl p ↦ rw (← a, ← b, p, e) refl
  | inr (inl p) ↦ rw (← a, ← b, p, e) refl
  | inr (inr (inl p)) ↦ rw (← a, ← b, p, e) refl
  | inr (inr (inr (inl p))) ↦ rw (← a, ← b, p, e', leb-not (c.gpr (rs1 i)) (c.gpr (rs2 i))) refl
  | inr (inr (inr (inr (inl p)))) ↦ rw (← a, ← b, p, e) refl
  | inr (inr (inr (inr (inr p)))) ↦
      rw (← a, ← b, p, e', leb-not (c.gpr (rs1 i)) (c.gpr (rs2 i))) refl
]

module _ {D : Type 0} where
  abbrev pub with_pc : Machine D → ℕ → Machine D
  with_pc m pc = set_cpu m (let c = m.cpu in record c { pc = pc })

  -- The next program counter, where there is a next machine.
  abbrev pub pc_after : Option (Machine D) → ℕ
  pc_after none = 0
  pc_after (some m) = m.cpu.pc

  on_cpu?-some :
      (f : Cpu → Option Cpu) (m : Machine D) (c : Cpu)
      → f m.cpu ≡ some c
      → on_cpu? f m ≡ some (set_cpu m c)
  on_cpu?-some f m c h =
      ap
        (λ (o : Option Cpu). elim o as (λ _. Option (Machine D)) [
          | none ↦ none
          | some c' ↦ some (set_cpu m c')
        ])
        h

module _ {D : Type 0} (undef : Undefined) (bus : List (Region D)) where
  pub decode_lem :
      (op i : ℕ) (m : Machine D)
      → bits i 0 7 ≡ op
      → op % 4 ≡ 3
      → decode_and_execute undef bus i m ≡ call_opcode undef bus op i m
  unfolding decode_and_execute handle_opcode
  decode_lem op i m h e =
      let p : (i == 0) ≡ false = ground arith in
      let q : (bits i 0 2 == 3) ≡ true = ground arith in rw (p, q, h) refl

  emulated_branch :
      (f3 r1 r2 k : ℕ) (m : Machine D)
      → is_branch f3 ≡ true
      → r1 < 32
      → r2 < 32
      → k < 2 ^ 13
      → k % 2 ≡ 0
      → decode_and_execute undef bus (encode_b f3 r1 r2 k) m
        ≡ some
            (set_cpu m (branch m.cpu (tested f3 (m.cpu.gpr r1) (m.cpu.gpr r2)) (sext (width f3) k)))
  unfolding call_opcode
  emulated_branch f3 r1 r2 k m h q r s e =
      let i = encode_b f3 r1 r2 k in
      let (op, f, a, b, i₁, i₂) = encode_b_lem f3 r1 r2 k (ground arith) q r s e in
      decode_lem 0x63 i m op refl
      ∙ rw f (on_cpu?-some (λ c'. b_type f3 c' i) m _ (b_type_lem f3 r1 r2 k m.cpu i h a b i₁ i₂))

  jal_step :
      (i d k : ℕ) (m : Machine D)
      → rd i ≡ d
      → imm_j i ≡ k
      → call_opcode undef bus 0x6f i m
        ≡ some (
            with_pc (set_cpu m (write_gpr m.cpu d (add64 m.cpu.pc 4))) (add64 m.cpu.pc (sext 20 k)))
  unfolding call_opcode Branch.exec_jal
  jal_step i d k m e f = rw (← e, f) refl

  -- `beq`, `bne`, `bltu` and `bgeu`, in the encoding of the ISA with an even offset of thirteen
  -- bits: the hart goes on at the program counter that the ISA wants, and nothing else changes.
  pub branch_lem :
      (f3 r1 r2 k : ℕ) (m : Machine D)
      → ((f3 == 0 || f3 == 1) || (f3 == 6 || f3 == 7)) ≡ true
      → r1 < 32
      → r2 < 32
      → k < 2 ^ 13
      → k % 2 ≡ 0
      → decode_and_execute undef bus (encode_b f3 r1 r2 k) m
        ≡ some (with_pc m (branch_target f3 (m.cpu.gpr r1) (m.cpu.gpr r2) k m.cpu.pc))
  branch_lem f3 r1 r2 k m h q r s e =
      let four : (f3 == 4) ≡ false = ground arith in
      let five : (f3 == 5) ≡ false = ground arith in
      emulated_branch f3 r1 r2 k m (ground arith) q r s e ∙ rw (four, five) refl

  -- `blt`, in the encoding of the ISA with an even offset of thirteen bits: the next program
  -- counter is the one that the ISA wants exactly where the branch is not taken or the top two
  -- bits of the offset agree, so that it fits twelve bits.
  pub exec_blt_lem :
      (r1 r2 k : ℕ) (m : Machine D)
      → m.cpu.pc < 2 ^ 64
      → r1 < 32
      → r2 < 32
      → k < 2 ^ 13
      → k % 2 ≡ 0
      → (pc_after (decode_and_execute undef bus (encode_b 4 r1 r2 k) m)
          ≡ branch_target 4 (m.cpu.gpr r1) (m.cpu.gpr r2) k m.cpu.pc)
        ↔ ((slt64 (m.cpu.gpr r1) (m.cpu.gpr r2) ≡ false) ⊎ (bits k 12 1 ≡ bits k 11 1))
  exec_blt_lem r1 r2 k m p q r s e =
      rw (emulated_branch 4 r1 r2 k m refl q r s e)
        (target_blt (slt64 (m.cpu.gpr r1) (m.cpu.gpr r2)) k m.cpu.pc p s)

  -- `bge`, in the encoding of the ISA with an even offset of thirteen bits, of registers that
  -- hold 64-bit words: the next program counter is the one that the ISA wants exactly where the
  -- operands have the same sign or the offset is 4, the next instruction.
  pub exec_bge_lem :
      (r1 r2 k : ℕ) (m : Machine D)
      → m.cpu.pc < 2 ^ 64
      → m.cpu.gpr r1 < 2 ^ 64
      → m.cpu.gpr r2 < 2 ^ 64
      → r1 < 32
      → r2 < 32
      → k < 2 ^ 13
      → k % 2 ≡ 0
      → (pc_after (decode_and_execute undef bus (encode_b 5 r1 r2 k) m)
          ≡ branch_target 5 (m.cpu.gpr r1) (m.cpu.gpr r2) k m.cpu.pc)
        ↔ ((k ≡ 4) ⊎ (bits (m.cpu.gpr r1) 63 1 ≡ bits (m.cpu.gpr r2) 63 1))
  exec_bge_lem r1 r2 k m p x y q r s e =
      rw (emulated_branch 5 r1 r2 k m refl q r s e)
        (target_bge (m.cpu.gpr r1) (m.cpu.gpr r2) k m.cpu.pc p x y s)

  -- `jal`, in the encoding of the ISA with an even offset of twenty-one bits: the link is
  -- written, and the next program counter is the one that the ISA wants exactly where the top
  -- two bits of the offset agree, so that it fits twenty bits.
  pub exec_jal_lem :
      (d k : ℕ) (m : Machine D)
      → m.cpu.pc < 2 ^ 64
      → d < 32
      → k < 2 ^ 21
      → k % 2 ≡ 0
      → (decode_and_execute undef bus (encode_j d k) m
          ≡ some (
              with_pc
                (set_cpu m (write_gpr m.cpu d (add64 m.cpu.pc 4)))
                (add64 m.cpu.pc (sext 20 k))))
        × ((add64 m.cpu.pc (sext 20 k) ≡ add64 m.cpu.pc (sext 21 k)) ↔ (bits k 20 1 ≡ bits k 19 1))
  exec_jal_lem d k m p q s e =
      let (op, f, i) = encode_j_lem d k q s e in
      (
        decode_lem 0x6f (encode_j d k) m op refl ∙ jal_step (encode_j d k) d k m f i,
        (λ h. ground arith, λ h. ground arith),
      )
