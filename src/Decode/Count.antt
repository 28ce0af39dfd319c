-- ===== src/Decode/Count.antt =====
-- src/decode.c, src/cpu.c: the count of instructions over the execution of a word and a step.
use risc_v_emulator.Prelude.{if_same, ℕ, ◌%◌, Bool, true, false, ◌==◌, if◌then◌else◌}
use risc_v_emulator.Prelude.{
  ◌≡◌, inl, inr, refl, arith, ◌∙◌, ap, sym, List, Option, none, some, bits, u16, Bool-cases, add64,
}
use risc_v_emulator.Cpu.{Cpu}
use risc_v_emulator.Machine.{set_cpu, Machine, Region, Undefined}
use risc_v_emulator.Memory.{memory_read}
use risc_v_emulator.Mmu.Walk.{get_pa}
use risc_v_emulator.Clint.{clint_tick, clint_update_interrupts}
use risc_v_emulator.Exec.Zero.Devices.{AllKeep, instructions, get_pa-part}
use risc_v_emulator.Exec.Count.{
  count_of, i_type-count, b_type-count, r_type-count, exec_iw-count, exec_lui-count,
  exec_auipc-count, exec_jal-count, exec_jalr-count, exec_fence-count, exec_3b-count,
  exec_float-count, handle_system-count, exec_c1-count, count_if,
}
use risc_v_emulator.Exec.Count.Accesses.{
  exec_load-count, exec_store-count, exec_amo-count, exec_c0-count, exec_c2-count,
}
use risc_v_emulator.Decode.{
  call_opcode, handle_opcode, decode_and_execute, on_cpu?, fetch, on_cpu, fetch_instruction,
  cpu_step, count,
}

module _ {D : Type 0} where
  -- The count of the next machine, where there is one.
  abbrev pub count_after : Option (Machine D) → ℕ → ℕ
  count_after none d = d
  count_after (some m) d = m.cpu.inst_count

  count_after_if :
      (b : Bool) (x y : Option (Machine D)) (d : ℕ)
      → count_after (if b then x else y) d ≡ (if b then count_after x d else count_after y d)
  count_after_if true x y d = refl
  count_after_if false x y d = refl

  count_after-on_cpu? :
      (f : Cpu → Option Cpu) (m : Machine D) (d : ℕ)
      → count_after (on_cpu? f m) d ≡ count_of (f m.cpu) d
  count_after-on_cpu? f m d = go (f m.cpu)
    where
      go :
          (o : Option Cpu)
          → count_after
              (elim o as (λ _. Option (Machine D)) [ none ↦ none | some c ↦ some (set_cpu m c) ])
              d
            ≡ count_of o d
      go none = refl
      go (some c) = refl

  memory_read-count :
      (a n : ℕ) (m : Machine D) → (memory_read a n m).1.cpu.inst_count ≡ m.cpu.inst_count
  unfolding memory_read
  memory_read-count a n m = ground arith

clint_tick-count : (k : ℕ) (c : Cpu) → (clint_tick k c).inst_count ≡ c.inst_count
unfolding clint_tick clint_update_interrupts
clint_tick-count k c = simp (count_if, if_same)

count-count : (c : Cpu) → (count c).inst_count ≡ add64 c.inst_count 1
unfolding count
count-count c = simp (count_if, if_same, clint_tick-count)

module _ {D : Type 0} where
  counts :
      (o : Option (Machine D)) {n : ℕ} {m' : Machine D}
      → count_after o n ≡ n
      → elim o as (λ _. Option (Machine D)) [ none ↦ none | some m ↦ some (on_cpu count m) ]
        ≡ some m'
      → m'.cpu.inst_count ≡ add64 n 1
  counts none kept h = absurd cc
  counts (some m) {n} {m'} kept h =
      ap (λ (o : Option (Machine D)). count_after o 0) (sym h)
      ∙ count-count m.cpu
      ∙ ap (λ (k : ℕ). add64 k 1) kept

module _ {D : Type 0} (undef : Undefined) (bus : List (Region D))
    (keep : AllKeep instructions bus) where
  call_opcode-count :
      (op i : ℕ) (m : Machine D)
      → count_after (call_opcode undef bus op i m) m.cpu.inst_count ≡ m.cpu.inst_count
  unfolding call_opcode
  call_opcode-count op i m = simp (
    count_after_if,
    count_after-on_cpu?,
    if_same,
    i_type-count,
    b_type-count,
    r_type-count,
    exec_iw-count,
    exec_lui-count,
    exec_auipc-count,
    exec_jal-count,
    exec_jalr-count,
    exec_fence-count,
    exec_3b-count,
    exec_float-count,
    handle_system-count,
    exec_c1-count,
    exec_load-count undef bus keep,
    exec_store-count undef bus keep,
    exec_amo-count undef bus keep,
    exec_c0-count undef bus keep,
    exec_c2-count undef bus keep,
  )

  decode_and_execute-count :
      (i : ℕ) (m : Machine D)
      → count_after (decode_and_execute undef bus i m) m.cpu.inst_count ≡ m.cpu.inst_count
  unfolding decode_and_execute handle_opcode
  decode_and_execute-count i m = elim (Bool-cases (i == 0)) [
    | inl e ↦ rw e refl
    | inr e ↦ rw e (call_opcode-count (if bits i 0 2 == 3 then bits i 0 7 else bits i 0 2) i m)
  ]

  fetch_instruction-count :
      (m : Machine D) → (fetch_instruction undef bus m).1.cpu.inst_count ≡ m.cpu.inst_count
  unfolding fetch_instruction
  fetch_instruction-count m =
      let (pa, m₁) = get_pa undef bus m.cpu.pc fetch m in
      let (low, m₂) = memory_read pa 2 m₁ in
      let translated : m₁.cpu.inst_count ≡ m.cpu.inst_count =
        ap (λ (g : ℕ → ℕ). g 0) (get_pa-part instructions undef bus keep m.cpu.pc fetch m) in
      let halved = memory_read-count pa 2 m₁ ∙ translated in
      elim (Bool-cases (u16 low % 4 == 3)) [
        | inl e ↦ rw e (memory_read-count (add64 pa 2) 2 m₂ ∙ halved)
        | inr e ↦ rw e halved
      ]

  -- Where the devices on the bus leave the count of instructions alone, a step of the hart adds 1
  -- to it, modulo 2 ^ 64.
  pub cpu_step-count :
      (m m' : Machine D)
      → cpu_step undef bus m ≡ some m'
      → m'.cpu.inst_count ≡ add64 m.cpu.inst_count 1
  unfolding cpu_step
  cpu_step-count m m' h =
      let (instr, m₁) = fetch_instruction undef bus m in
      counts (decode_and_execute undef bus instr m₁) (decode_and_execute-count instr m₁) h
      ∙ ap (λ (n : ℕ). add64 n 1) (fetch_instruction-count m)
