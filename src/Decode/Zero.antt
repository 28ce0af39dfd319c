-- ===== src/Decode/Zero.antt =====
-- src/decode.c: register 0 over the execution of an instruction word.
use risc_v_emulator.Prelude.{
  if_same, ℕ, ◌*◌, ◌^◌, Bool, true, false, ◌==◌, ◌&&◌, ◌||◌, if◌then◌else◌,
}
use risc_v_emulator.Prelude.{
  ==_iff, ◌≡◌, inl, inr, refl, arith, ◌∙◌, ap, sym, List, Option, none, some, bits, bit_or, u16,
  Bool-cases,
}
use risc_v_emulator.Prelude.Bits.{bit_or_fields}
use risc_v_emulator.Cpu.{Cpu}
use risc_v_emulator.Machine.{set_cpu, Machine, Region, Undefined}
use risc_v_emulator.Exec.Fields.{rd, rs2, funct3, funct7}
use risc_v_emulator.Exec.Zero.{writes_zero}
use risc_v_emulator.Exec.Zero.Devices.{AllKeep, gprs}
use risc_v_emulator.Exec.Zero.Words.{
  zero_of, i_type-zero, b_type-zero, r_type-zero, exec_iw-zero, exec_lui-zero, exec_auipc-zero,
  exec_jal-zero, exec_jalr-zero, exec_fence-zero, exec_3b-zero, exec_float-zero, handle_system-zero,
  exec_c1-zero,
}
use risc_v_emulator.Exec.Zero.Accesses.{
  exec_load-zero, exec_store-zero, exec_amo-zero, exec_c0-zero, exec_c2-zero,
}
use risc_v_emulator.Decode.{r_type, b_type, call_opcode, handle_opcode, decode_and_execute, on_cpu?}

module _ {D : Type 0} where
  -- Register 0 of the next machine, where there is one.
  abbrev pub zero_after : Option (Machine D) → ℕ
  zero_after none = 0
  zero_after (some m) = m.cpu.gpr 0

  zero_after_if :
      (b : Bool) (x y : Option (Machine D))
      → zero_after (if b then x else y) ≡ (if b then zero_after x else zero_after y)
  zero_after_if true x y = refl
  zero_after_if false x y = refl

  zero_after-on_cpu? :
      (f : Cpu → Option Cpu) (m : Machine D) → zero_after (on_cpu? f m) ≡ zero_of (f m.cpu) 0
  zero_after-on_cpu? f m = go (f m.cpu)
    where
      go :
          (o : Option Cpu)
          → zero_after
              (elim o as (λ _. Option (Machine D)) [ none ↦ none | some c ↦ some (set_cpu m c) ])
            ≡ zero_of o 0
      go none = refl
      go (some c) = refl

low_fields : (i : ℕ) → (bits (u16 i) 13 3 ≡ bits i 13 3) × (bits (u16 i) 7 5 ≡ rd i)
low_fields i = (omega arith, omega arith)

-- What `writes_zero` says of a word, by the table entry it is sent to.
writes_zero_cases :
    (i : ℕ)
    → writes_zero i ≡ false
    → ((bits i 0 2 == 2) ≡ true → (bits (u16 i) 13 3 == 3 && bits (u16 i) 7 5 == 0) ≡ false)
      × ((bits i 0 7 == 0x33) ≡ true
          → (bit_or (funct7 i * 2 ^ 3) (funct3 i) == 12 && (rd i == 0 && rs2 i == 0)) ≡ false)
      × ((bits i 0 7 == 0x3b) ≡ true → ((funct7 i == 0 && funct3 i == 1) && rd i == 0) ≡ false)
      × ((bits i 0 7 == 0x53) ≡ true
          → (((funct7 i == 0x70 || funct7 i == 0x71) && (rs2 i == 0 && funct3 i == 0)) && rd i == 0)
            ≡ false)
writes_zero_cases i h =
    rw ((low_fields i).0, (low_fields i).1, bit_or_fields 3 (funct7 i) (funct3 i) (omega arith))
      (λ e. ground arith, λ e. ground arith, λ e. ground arith, λ e. ground arith)

b_type_keeps : (f : ℕ) (c : Cpu) (i : ℕ) → c.gpr 0 ≡ 0 → zero_of (b_type f c i) 0 ≡ 0
b_type_keeps f c i z = ap (zero_of (b_type f c i)) (sym z) ∙ b_type-zero f c i ∙ z

module _ {D : Type 0} (undef : Undefined) (bus : List (Region D)) (keep : AllKeep gprs bus) where
  ruleset zeros = (
    zero_after_if, zero_after-on_cpu?, if_same, exec_iw-zero, exec_lui-zero, exec_auipc-zero,
    exec_jal-zero, exec_jalr-zero, exec_fence-zero, handle_system-zero, exec_c1-zero, i_type-zero,
  )

  other_opcode-zero :
      (op i : ℕ) (m : Machine D)
      → m.cpu.gpr 0 ≡ 0
      → (op == 2) ≡ false
      → (op == 0x33) ≡ false
      → (op == 0x3b) ≡ false
      → (op == 0x53) ≡ false
      → zero_after (call_opcode undef bus op i m) ≡ 0
  unfolding call_opcode
  other_opcode-zero op i m z e₁ e₂ e₃ e₄ = simp (
    zeros,
    exec_load-zero undef bus keep,
    exec_store-zero undef bus keep,
    exec_amo-zero undef bus keep,
    exec_c0-zero undef bus keep,
    b_type_keeps (funct3 i) m.cpu i z,
    z,
    e₁,
    e₂,
    e₃,
    e₄,
  )

  guarded_opcode-zero :
      (i : ℕ) (m : Machine D)
      → m.cpu.gpr 0 ≡ 0
      → writes_zero i ≡ false
      → ((bits i 0 2 == 2) ≡ true → zero_after (call_opcode undef bus 2 i m) ≡ 0)
        × ((bits i 0 7 == 0x33) ≡ true → zero_after (call_opcode undef bus 0x33 i m) ≡ 0)
        × ((bits i 0 7 == 0x3b) ≡ true → zero_after (call_opcode undef bus 0x3b i m) ≡ 0)
        × ((bits i 0 7 == 0x53) ≡ true → zero_after (call_opcode undef bus 0x53 i m) ≡ 0)
  unfolding call_opcode
  guarded_opcode-zero i m z h =
      let (h₂, h₃₃, h₃b, h₅₃) = writes_zero_cases i h in
      (
        λ e. exec_c2-zero undef bus keep (u16 i) m (h₂ e) ∙ z,
        λ e.
            zero_after-on_cpu? (λ c. r_type (bit_or (funct7 i * 2 ^ 3) (funct3 i)) c i) m
            ∙ r_type-zero _ m.cpu i (h₃₃ e) z,
        λ e. exec_3b-zero m.cpu i (h₃b e) ∙ z,
        λ e. exec_float-zero m.cpu i (h₅₃ e) ∙ z,
      )

  handle_opcode-zero :
      (i : ℕ) (m : Machine D)
      → m.cpu.gpr 0 ≡ 0
      → writes_zero i ≡ false
      → zero_after (handle_opcode undef bus i m) ≡ 0
  unfolding handle_opcode
  handle_opcode-zero i m z h =
      let (k₂, k₃₃, k₃b, k₅₃) = guarded_opcode-zero i m z h in
      let op = if bits i 0 2 == 3 then bits i 0 7 else bits i 0 2 in
      elim (Bool-cases (op == 2)) [
        | inl e ↦ rw ((==_iff op 2).0 e) (k₂ (ground arith))
        | inr n₂ ↦ elim (Bool-cases (op == 0x33)) [
          | inl e ↦ rw ((==_iff op 0x33).0 e) (k₃₃ (ground arith))
          | inr n₃₃ ↦ elim (Bool-cases (op == 0x3b)) [
            | inl e ↦ rw ((==_iff op 0x3b).0 e) (k₃b (ground arith))
            | inr n₃b ↦ elim (Bool-cases (op == 0x53)) [
              | inl e ↦ rw ((==_iff op 0x53).0 e) (k₅₃ (ground arith))
              | inr n₅₃ ↦ other_opcode-zero op i m z n₂ n₃₃ n₃b n₅₃
            ]
          ]
        ]
      ]

  -- Where register 0 holds 0 and the devices on the bus leave the registers alone, register 0
  -- holds 0 after the execution of every word but those of `writes_zero`, if there is a next
  -- machine.
  pub decode_and_execute-zero :
      (i : ℕ) (m : Machine D)
      → m.cpu.gpr 0 ≡ 0
      → writes_zero i ≡ false
      → zero_after (decode_and_execute undef bus i m) ≡ 0
  unfolding decode_and_execute
  decode_and_execute-zero i m z h = elim (Bool-cases (i == 0)) [
    | inl e ↦ rw e z
    | inr e ↦ rw e (handle_opcode-zero i m z h)
  ]
