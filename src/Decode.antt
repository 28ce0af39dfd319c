-- ===== src/Decode.antt =====
-- src/decode.c: the opcode tables and the dispatch of an instruction word, and `cpu_step` of
-- src/cpu.c. `none` is a call through a table entry that is NULL.
pub mod Totality
pub mod Zero
pub mod Targets
pub mod Branches
pub mod Count
pub mod Run
use risc_v_emulator.Prelude.{
  ℕ, ◌+◌, ◌*◌, ◌/◌, ◌%◌, ◌^◌, Bool, false, ◌==◌, ◌&&◌, not, if◌then◌else◌,
}
use risc_v_emulator.Prelude.{List, Option, none, some, update, add64, bits, bit_or, u16}
use risc_v_emulator.Cpu.{Cpu, csr_time}
use risc_v_emulator.Machine.{Machine, Region, Undefined, set_cpu}
use risc_v_emulator.Memory.{memory_read}
use risc_v_emulator.Mmu.Tlb.{fetch}
use risc_v_emulator.Mmu.Walk.{get_pa}
use risc_v_emulator.Trap.{exec_mret, exec_sret}
use risc_v_emulator.Clint.{clint_tick}
use risc_v_emulator.Exec.Fields.{funct3, funct7}
use risc_v_emulator.Exec.Alu
use risc_v_emulator.Exec.Words.{exec_iw, exec_3b, exec_float}
use risc_v_emulator.Exec.Branch
use risc_v_emulator.Exec.System.{
  exec_csr, exec_ecall, exec_ebreak, exec_wfi, exec_fence, exec_sfencevma,
}
use risc_v_emulator.Exec.Access.{on_cpu, exec_load, exec_store, exec_amo}
use risc_v_emulator.Exec.Compressed.Quadrant1.{exec_c1}
use risc_v_emulator.Exec.Compressed.Memory.{exec_c0, exec_c2}

-- `i_type_imm_instruction`, full.
unfoldable pub i_type : ℕ → Cpu → ℕ → Cpu
i_type f c i =
    if f == 0
    then Alu.exec_addi c i
    else if f == 1
    then Alu.exec_slli c i
    else if f == 2
    then Alu.exec_slti c i
    else if f == 3
    then Alu.exec_sltiu c i
    else if f == 4
    then Alu.exec_xori c i
    else if f == 5
    then Alu.exec_si c i
    else if f == 6
    then Alu.exec_ori c i
    else Alu.exec_andi c i

-- `r_type_instruction`, by `funct7 << 3 | funct3`.
unfoldable pub r_type : ℕ → Cpu → ℕ → Option Cpu
r_type index c i =
    if index == 0
    then some (Alu.exec_add c i)
    else if index == 3
    then some (Alu.exec_sltu c i)
    else if index == 4
    then some (Alu.exec_xor c i)
    else if index == 5
    then some (Alu.exec_srl c i)
    else if index == 6
    then some (Alu.exec_or c i)
    else if index == 7
    then some (Alu.exec_and c i)
    else if index == 8
    then some (Alu.exec_mul c i)
    else if index == 12
    then some (Alu.exec_div c i)
    else if index == 13
    then some (Alu.exec_divu c i)
    else if index == 15
    then some (Alu.exec_remu c i)
    else if index == 256
    then some (Alu.exec_sub c i)
    else none

-- `b_type_instr`.
unfoldable pub b_type : ℕ → Cpu → ℕ → Option Cpu
b_type f c i =
    if f == 0
    then some (Branch.exec_beq c i)
    else if f == 1
    then some (Branch.exec_bne c i)
    else if f == 4
    then some (Branch.exec_blt c i)
    else if f == 5
    then some (Branch.exec_bge c i)
    else if f == 6
    then some (Branch.exec_bltu c i)
    else if f == 7
    then some (Branch.exec_bgeu c i)
    else none

-- `handle_system`: two tests of a word with funct3 0, one after the other, else a CSR access.
unfoldable pub handle_system : ℕ → Cpu → ℕ → Cpu
handle_system shl_1u_63 c i =
    let imm12 = bits i 20 12 in
    let c₁ =
      if imm12 == 0
      then exec_ecall shl_1u_63 c i
      else if imm12 == 1
      then exec_ebreak c i
      else if imm12 == 0x302
      then exec_mret c i
      else if imm12 == 0x102
      then exec_sret c i
      else if imm12 == 0x105
      then exec_wfi c i
      else c in
    if funct3 i == 0 then (if bits i 25 6 == 9 then exec_sfencevma c₁ i else c₁) else exec_csr c i

-- The counters after an instruction.
unfoldable pub count : Cpu → Cpu
count c =
    let cycle = add64 c.cycle_count 1 in
    let c₁ = record c { cycle_count = cycle } in
    let c₂ = if cycle % 100 == 0 then clint_tick 1 c₁ else c₁ in
    record c₂ {
      csr = update c₂.csr csr_time (add64 (c₂.csr csr_time) 10);
      inst_count = add64 c₂.inst_count 1;
    }

module _ {D : Type 0} where
  -- An `Option` of a hart put back into the machine.
  abbrev pub on_cpu? : (Cpu → Option Cpu) → Machine D → Option (Machine D)
  on_cpu? f m = elim (f m.cpu) [ none ↦ none | some c ↦ some (set_cpu m c) ]

  -- A word that no table entry takes stops the emulator.
  abbrev pub stop : Machine D → Machine D
  stop m = on_cpu (λ c. record c { running = false }) m

module _ {D : Type 0} (undef : Undefined) (bus : List (Region D)) where
  -- `opcode_table[opcode](cpu, instruction)`.
  unfoldable pub call_opcode : ℕ → ℕ → Machine D → Option (Machine D)
  call_opcode opcode i m =
      if opcode == 0x00
      then some (exec_c0 undef bus (u16 i) m)
      else if opcode == 0x01
      then some (on_cpu (λ c. exec_c1 c (u16 i)) m)
      else if opcode == 0x02
      then some (exec_c2 undef bus (u16 i) m)
      else if opcode == 0x03
      then some (exec_load undef bus i m)
      else if opcode == 0x0f
      then some (on_cpu (λ c. exec_fence c i) m)
      else if opcode == 0x13
      then some (on_cpu (λ c. i_type (funct3 i) c i) m)
      else if opcode == 0x17
      then some (on_cpu (λ c. Alu.exec_auipc c i) m)
      else if opcode == 0x1b
      then some (on_cpu (λ c. exec_iw c i) m)
      else if opcode == 0x23
      then some (exec_store undef bus i m)
      else if opcode == 0x2f
      then some (exec_amo undef bus i m)
      else if opcode == 0x33
      then on_cpu? (λ c. r_type (bit_or (funct7 i * 2 ^ 3) (funct3 i)) c i) m
      else if opcode == 0x37
      then some (on_cpu (λ c. Alu.exec_lui c i) m)
      else if opcode == 0x3b
      then some (on_cpu (λ c. exec_3b c i) m)
      else if opcode == 0x53
      then some (on_cpu (λ c. exec_float c i) m)
      else if opcode == 0x63
      then on_cpu? (λ c. b_type (funct3 i) c i) m
      else if opcode == 0x67
      then some (on_cpu (λ c. Branch.exec_jalr c i) m)
      else if opcode == 0x6f
      then some (on_cpu (λ c. Branch.exec_jal c i) m)
      else if opcode == 0x73
      then some (on_cpu (λ c. handle_system undef.shl_1u_63 c i) m)
      else some (stop m)

  -- A word whose low two bits are not both set is compressed.
  unfoldable pub handle_opcode : ℕ → Machine D → Option (Machine D)
  unfolding call_opcode
  handle_opcode i m = call_opcode (if bits i 0 2 == 3 then bits i 0 7 else bits i 0 2) i m

  unfoldable pub decode_and_execute : ℕ → Machine D → Option (Machine D)
  unfolding handle_opcode
  decode_and_execute i m = if i == 0 then some (stop m) else handle_opcode i m

  -- `fetch_instruction`: the second half word is read only where the low two bits ask for it.
  unfoldable pub fetch_instruction : Machine D → ℕ × Machine D
  fetch_instruction m =
      let (pa, m₁) = get_pa undef bus m.cpu.pc fetch m in
      let (low, m₂) = memory_read pa 2 m₁ in
      let (high, m₃) = memory_read (add64 pa 2) 2 m₂ in
      let instr = u16 low in
      if instr % 4 == 3 then (bit_or (u16 high * 2 ^ 16) instr, m₃) else (instr, m₂)

  unfoldable pub cpu_step : Machine D → Option (Machine D)
  unfolding fetch_instruction count
  cpu_step m =
      let (instr, m₁) = fetch_instruction m in
      elim (decode_and_execute instr m₁) [ none ↦ none | some m₂ ↦ some (on_cpu count m₂) ]
