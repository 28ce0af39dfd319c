-- ===== src/Exec/Compressed/Memory.antt =====
-- src/instructions.c, `exec_c0` and `exec_c2`: the loads and stores of quadrants 0 and 2, with the
-- register moves and jumps that stand among them.
use risc_v_emulator.Prelude.{ℕ, ◌-◌, ◌*◌, ◌%◌, ◌^◌, ◌==◌, if◌then◌else◌, List, bits, bit_or}
use risc_v_emulator.Prelude.{sext, add64, u64}
use risc_v_emulator.Cpu.{Cpu, put_gpr, write_gpr, advance}
use risc_v_emulator.Machine.{Machine, Region, Undefined}
use risc_v_emulator.Bus.{bus_read, bus_write}
use risc_v_emulator.Mmu.Tlb.{Access, load, store}
use risc_v_emulator.Mmu.Walk.{get_pa}
use risc_v_emulator.Exec.Access.{on_cpu}
use risc_v_emulator.Exec.Compressed.Quadrant1.{rd_full, rd_short, rs2_short, imm_6}

-- The offsets of `c.addi4spn`, `c.lw` and `c.sw`, `c.ld` and `c.sd`.
abbrev pub imm_4spn : ℕ → ℕ
imm_4spn i =
    bit_or (bit_or (bit_or (bits i 5 1 * 2 ^ 3) (bits i 6 1 * 2 ^ 2)) (bits i 7 4 * 2 ^ 6))
      (bits i 11 2 * 2 ^ 4)

abbrev pub imm_w : ℕ → ℕ
imm_w i = bit_or (bit_or (bits i 10 3 * 2 ^ 3) (bits i 6 1 * 2 ^ 2)) (bits i 5 1 * 2 ^ 6)

-- `c.sw` joins the same fields in another order.
abbrev pub imm_sw : ℕ → ℕ
imm_sw i = bit_or (bit_or (bits i 6 1 * 2 ^ 2) (bits i 10 3 * 2 ^ 3)) (bits i 5 1 * 2 ^ 6)

abbrev pub imm_d : ℕ → ℕ
imm_d i = bit_or (bits i 10 3 * 2 ^ 3) (bits i 5 2 * 2 ^ 6)

-- The stack offsets of `c.lwsp`, `c.ldsp`, `c.swsp`, `c.sdsp`.
abbrev pub imm_lwsp : ℕ → ℕ
imm_lwsp i = bit_or (bit_or (bits i 4 3 * 2 ^ 2) (bits i 12 1 * 2 ^ 5)) (bits i 2 2 * 2 ^ 6)

abbrev pub imm_ldsp : ℕ → ℕ
imm_ldsp i = bit_or (bit_or (bits i 2 3 * 2 ^ 6) (bits i 5 2 * 2 ^ 3)) (bits i 12 1 * 2 ^ 5)

abbrev pub imm_swsp : ℕ → ℕ
imm_swsp i = bit_or (bits i 7 2 * 2 ^ 6) (bits i 9 4 * 2 ^ 2)

abbrev pub imm_sdsp : ℕ → ℕ
imm_sdsp i = bit_or (bits i 7 3 * 2 ^ 6) (bits i 10 3 * 2 ^ 3)

unfoldable pub c_addi4spn : Cpu → ℕ → Cpu
c_addi4spn c i =
    advance (if imm_4spn i == 0 then c else put_gpr c (rs2_short i) (add64 (c.gpr 2) (imm_4spn i)))
      2

-- `c.slli`.
unfoldable pub c_slli : Cpu → ℕ → Cpu
c_slli c i = advance (write_gpr c (rd_full i) (u64 (c.gpr (rd_full i) * 2 ^ imm_6 i))) 2

-- `c.jr`, `c.jalr`, `c.mv`, `c.add`. The words with register 0 where one is wanted do nothing,
-- but `c.jalr` (`c.ebreak`) still writes the link register, and reads its target after that.
unfoldable pub c_jump_move : Cpu → ℕ → Cpu
c_jump_move c i =
    let r1 = rd_full i in
    let r2 = bits i 2 5 in
    let linked = put_gpr c 1 (add64 c.pc 2) in
    let target = linked.gpr r1 in
    if r2 == 0
    then (if bits i 12 1 == 0
        then (if r1 == 0 then c else record c { pc = c.gpr r1 })
        else if r1 == 0
        then linked
        else record linked { pc = target - target % 2 })
    else if r1 == 0
    then c
    else if bits i 12 1 == 0
    then advance (put_gpr c r1 (c.gpr r2)) 2
    else advance (put_gpr c r1 (add64 (c.gpr r1) (c.gpr r2))) 2

module _ {D : Type 0} (undef : Undefined) (bus : List (Region D)) where
  -- A load: translate, read, and let `put` write the register; then the next pc.
  abbrev pub c_load : ℕ → Access → ℕ → (Cpu → ℕ → Cpu) → Machine D → Machine D
  c_load addr acc size put m =
      let (pa, m₁) = get_pa undef bus addr acc m in
      let (v, m₂) = bus_read undef bus pa size m₁ in on_cpu (λ c. advance (put c v) 2) m₂

  -- A store: translate, write the register's value as it then is.
  abbrev pub c_store : ℕ → ℕ → ℕ → Machine D → Machine D
  c_store addr source size m =
      let (pa, m₁) = get_pa undef bus addr store m in
      on_cpu (λ c. advance c 2) (bus_write bus pa (m₁.cpu.gpr source) size m₁)

  -- The funct3 values 1, 4, 5 do nothing.
  unfoldable pub exec_c0 : ℕ → Machine D → Machine D
  exec_c0 i m =
      let f = bits i 13 3 in
      let base = m.cpu.gpr (rd_short i) in
      if f == 0
      then on_cpu (λ c. c_addi4spn c i) m
      else if f == 2
      then c_load (add64 base (imm_w i)) load 4 (λ c v. put_gpr c (rs2_short i) (sext 32 v)) m
      else if f == 3
      then c_load (add64 base (imm_d i)) load 8 (λ c v. put_gpr c (rs2_short i) v) m
      else if f == 6
      then c_store (add64 base (imm_sw i)) (rs2_short i) 4 m
      else if f == 7
      then c_store (add64 base (imm_d i)) (rs2_short i) 8 m
      else m

  -- `c.lwsp`: translated as a store, read only if `rd` is not 0, and not sign-extended.
  unfoldable pub c_lwsp : ℕ → Machine D → Machine D
  c_lwsp i m =
      let (pa, m₁) = get_pa undef bus (add64 (m.cpu.gpr 2) (imm_lwsp i)) store m in
      let (v, m₂) = bus_read undef bus pa 4 m₁ in
      if rd_full i == 0
      then on_cpu (λ c. advance c 2) m₁
      else on_cpu (λ c. advance (put_gpr c (rd_full i) v) 2) m₂

  -- The write of `c.ldsp` is not guarded. The funct3 values 1 and 5 do nothing.
  unfoldable pub exec_c2 : ℕ → Machine D → Machine D
  exec_c2 i m =
      let f = bits i 13 3 in
      let sp = m.cpu.gpr 2 in
      let r2 = bits i 2 5 in
      if f == 0
      then on_cpu (λ c. c_slli c i) m
      else if f == 2
      then c_lwsp i m
      else if f == 3
      then c_load (add64 sp (imm_ldsp i)) load 8 (λ c v. put_gpr c (rd_full i) v) m
      else if f == 4
      then on_cpu (λ c. c_jump_move c i) m
      else if f == 6
      then c_store (add64 sp (imm_swsp i)) r2 4 m
      else if f == 7
      then c_store (add64 sp (imm_sdsp i)) r2 8 m
      else m
