-- ===== src/Decode/Totality.antt =====
-- src/decode.c: which instruction words make the emulator call through an empty table entry.
use risc_v_emulator.Prelude.{
  ℕ, ◌+◌, ◌*◌, ◌^◌, ◌<◌, Bool, true, false, ◌==◌, ◌&&◌, ◌||◌, not, if◌then◌else◌,
}
use risc_v_emulator.Prelude.{
  ==_iff, ◌≡◌, ◌↔◌, inl, inr, refl, arith, List, Option, none, some, bits, bit_or, leb, Bool-cases,
}
use risc_v_emulator.Prelude.Bits.{bit_or_fields}
use risc_v_emulator.Cpu.{Cpu}
use risc_v_emulator.Machine.{set_cpu, Machine, Region, Undefined}
use risc_v_emulator.Exec.Fields.{funct3, funct7}
use risc_v_emulator.Decode.{r_type, b_type, call_opcode, handle_opcode, decode_and_execute, on_cpu?}

-- The register operations that the R-type table holds: `add`, `sltu`, `xor`, `srl`, `or`, `and`;
-- `mul`, `div`, `divu`, `remu`; `sub`.
abbrev pub is_r_type : ℕ → ℕ → Bool
is_r_type f7 f3 =
    if f7 == 0
    then f3 == 0 || leb 3 f3
    else if f7 == 1
    then ((f3 == 0 || f3 == 4) || f3 == 5) || f3 == 7
    else f7 == 32 && f3 == 0

-- A 32-bit word of the R-type opcode that the table does not hold (such as `sll`, `slt`, `sra`,
-- `mulh` and `rem`), or a branch with funct3 2 or 3.
abbrev pub calls_null : ℕ → Bool
calls_null i =
    if bits i 0 7 == 0x33
    then not (is_r_type (funct7 i) (funct3 i))
    else bits i 0 7 == 0x63 && (funct3 i == 2 || funct3 i == 3)

r_type_index : (f7 f3 : ℕ) → f3 < 8 → bit_or (f7 * 2 ^ 3) f3 ≡ f7 * 8 + f3
r_type_index f7 f3 h = bit_or_fields 3 f7 f3 h

abbrev is_none {ℓ} : {A : Type ℓ} → Option A → Bool
is_none none = true
is_none (some a) = false

is_none-if {ℓ} :
    {A : Type ℓ} (b : Bool) (x y : Option A)
    → is_none (if b then x else y) ≡ (if b then is_none x else is_none y)
is_none-if true x y = refl
is_none-if false x y = refl

is_none_iff {ℓ} : {A : Type ℓ} (x : Option A) → (x ≡ none) ↔ (is_none x ≡ true)
is_none_iff none = (λ _. refl, λ _. refl)
is_none_iff (some a) = (λ h. cc, λ h. cc)

r_type_fails :
    (f7 f3 : ℕ) (c : Cpu) (i : ℕ)
    → f3 < 8
    → is_none (r_type (bit_or (f7 * 2 ^ 3) f3) c i) ≡ not (is_r_type f7 f3)
unfolding r_type
r_type_fails f7 f3 c i h = rw (r_type_index f7 f3 h) (simp is_none-if (ground arith))

b_type_fails : (f3 : ℕ) (c : Cpu) (i : ℕ) → f3 < 8 → is_none (b_type f3 c i) ≡ (f3 == 2 || f3 == 3)
unfolding b_type
b_type_fails f3 c i h = simp is_none-if (ground arith)

-- The rungs of the opcode table, where `r` and `b` say that the two inner tables fail.
opcode_ladder :
    (op : ℕ) (r b : Bool)
    → (if op == 0
        then false
        else if op == 1
        then false
        else if op == 2
        then false
        else if op == 3
        then false
        else if op == 15
        then false
        else if op == 19
        then false
        else if op == 23
        then false
        else if op == 27
        then false
        else if op == 35
        then false
        else if op == 47
        then false
        else if op == 51
        then r
        else if op == 55
        then false
        else if op == 59
        then false
        else if op == 83
        then false
        else if op == 99
        then b
        else if op == 103
        then false
        else if op == 111
        then false
        else if op == 115
        then false
        else false)
      ≡ (if op == 51 then r else op == 99 && b)
opcode_ladder op r b = ground arith

pub opcode_of_word :
    (i : ℕ)
    → let op = if bits i 0 2 == 3 then bits i 0 7 else bits i 0 2 in
      ((op == 0x33) ≡ (bits i 0 7 == 0x33)) × ((op == 0x63) ≡ (bits i 0 7 == 0x63))
opcode_of_word i = ground arith

module _ {D : Type 0} where
  on_cpu?_fails : (f : Cpu → Option Cpu) (m : Machine D) → is_none (on_cpu? f m) ≡ is_none (f m.cpu)
  on_cpu?_fails f m = go (f m.cpu)
    where
      go :
          (o : Option Cpu)
          → is_none
              (elim o as (λ _. Option (Machine D)) [ none ↦ none | some c ↦ some (set_cpu m c) ])
            ≡ is_none o
      go none = refl
      go (some c) = refl

module _ {D : Type 0} (undef : Undefined) (bus : List (Region D)) where
  call_opcode_fails :
      (op i : ℕ) (m : Machine D)
      → is_none (call_opcode undef bus op i m) ≡ (
          if op == 0x33
          then not (is_r_type (funct7 i) (funct3 i))
          else op == 0x63 && (funct3 i == 2 || funct3 i == 3))
  unfolding call_opcode
  call_opcode_fails op i m =
      simp (is_none-if, on_cpu?_fails)
        (rw
          (
            r_type_fails (funct7 i) (funct3 i) m.cpu i (omega arith),
            b_type_fails (funct3 i) m.cpu i (omega arith),
          )
          (opcode_ladder op _ _))

  decode_and_execute_fails :
      (i : ℕ) (m : Machine D) → is_none (decode_and_execute undef bus i m) ≡ calls_null i
  unfolding decode_and_execute handle_opcode
  decode_and_execute_fails i m = elim (Bool-cases (i == 0)) [
    | inl e ↦ rw (e, (==_iff i 0).0 e) refl
    | inr e ↦
        rw
          (
            e,
            call_opcode_fails (if bits i 0 2 == 3 then bits i 0 7 else bits i 0 2) i m,
            (opcode_of_word i).0,
            (opcode_of_word i).1,
          )
          refl
  ]

  -- The emulator calls through an empty table entry exactly at the words of `calls_null`; every
  -- other word, valid or not, leads to a next state.
  pub decode_and_execute-none :
      (i : ℕ) (m : Machine D) → (decode_and_execute undef bus i m ≡ none) ↔ (calls_null i ≡ true)
  decode_and_execute-none i m =
      rw (← decode_and_execute_fails i m) (is_none_iff (decode_and_execute undef bus i m))
