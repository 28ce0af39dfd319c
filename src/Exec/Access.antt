-- ===== src/Exec/Access.antt =====
-- src/instructions.c: loads, stores and atomic operations. They translate the address by `get_pa`
-- and go through the bus, whose devices may change the machine.
pub mod Bare
pub mod RoundTrip
use risc_v_emulator.Prelude.{ℕ, ◌+◌, ◌%◌, ◌^◌, ◌==◌, if◌then◌else◌, List, add64, bits, sext, u32}
use risc_v_emulator.Cpu.{Cpu, put_gpr, write_gpr, advance}
use risc_v_emulator.Machine.{Machine, Region, Undefined, set_cpu, halt}
use risc_v_emulator.Bus.{bus_read, bus_write}
use risc_v_emulator.Mmu.Tlb.{load, store}
use risc_v_emulator.Mmu.Walk.{get_pa}
use risc_v_emulator.Exec.Fields.{rd, rs1, rs2, funct3, imm_i, imm_s}

module _ {D : Type 0} where
  -- A change of the hart alone.
  abbrev pub on_cpu : (Cpu → Cpu) → Machine D → Machine D
  on_cpu f m = set_cpu m (f m.cpu)

module _ {D : Type 0} (undef : Undefined) (bus : List (Region D)) where
  -- `sb`, `sh`, `sw`, `sd`; another width stores nothing.
  unfoldable pub exec_store : ℕ → Machine D → Machine D
  exec_store instr m =
      let addr = add64 (m.cpu.gpr (rs1 instr)) (imm_s instr) in
      let value = m.cpu.gpr (rs2 instr) in
      let (pa, m₁) = get_pa undef bus addr store m in
      let f = funct3 instr in
      let m₂ =
        if f == 0
        then bus_write bus pa (value % 2 ^ 8) 1 m₁
        else if f == 1
        then bus_write bus pa (value % 2 ^ 16) 2 m₁
        else if f == 2
        then bus_write bus pa (value % 2 ^ 32) 4 m₁
        else if f == 3
        then bus_write bus pa value 8 m₁
        else m₁ in
      on_cpu (λ c. advance c 4) m₂

  -- A read of `size` bytes whose value goes to `rd` through a cast.
  abbrev pub load_to : ℕ → (ℕ → ℕ) → ℕ → ℕ → Machine D → Machine D
  load_to size cast pa dest m =
      let (v, m') = bus_read undef bus pa size m in on_cpu (λ c. write_gpr c dest (cast v)) m'

  unfoldable pub load_lb : ℕ → ℕ → Machine D → Machine D
  load_lb = load_to 1 (λ v. sext 8 v)

  unfoldable pub load_lh : ℕ → ℕ → Machine D → Machine D
  load_lh = load_to 2 (λ v. sext 16 v)

  unfoldable pub load_lbu : ℕ → ℕ → Machine D → Machine D
  load_lbu = load_to 1 (λ v. u32 v)

  -- The word is extended by zeros.
  unfoldable pub load_lw : ℕ → ℕ → Machine D → Machine D
  load_lw = load_to 4 (λ v. u32 v)

  unfoldable pub exec_load : ℕ → Machine D → Machine D
  exec_load instr m =
      let dest = rd instr in
      let (pa, m₁) = get_pa undef bus (add64 (m.cpu.gpr (rs1 instr)) (imm_i instr)) load m in
      let f = funct3 instr in
      let m₂ =
        if f == 0
        then load_lb pa dest m₁
        else if f == 1
        then load_lh pa dest m₁
        else if f == 2
        then load_lw pa dest m₁
        else if f == 3
        then load_to 8 (λ v. v) pa dest m₁
        else if f == 4
        then load_lbu pa dest m₁
        else if f == 5
        then load_to 2 (λ v. v % 2 ^ 16) pa dest m₁
        else if f == 6
        then load_to 4 (λ v. u32 v) pa dest m₁
        else m₁ in
      on_cpu (λ c. advance c 4) m₂

  -- `amoswap.w` at an address that is not aligned halts the hart.
  unfoldable pub amoswap_w : ℕ → ℕ → Machine D → Machine D
  amoswap_w instr pa m =
      let (tmp, m₁) = bus_read undef bus pa 4 m in
      let m₂ = bus_write bus pa (m₁.cpu.gpr (rs2 instr)) 4 m₁ in
      if m.cpu.gpr (rs1 instr) % 4 == 0
      then on_cpu (λ c. advance (write_gpr c (rd instr) (u32 tmp)) 4) m₂
      else halt m

  unfoldable pub amoadd_w : ℕ → ℕ → Machine D → Machine D
  amoadd_w instr pa m =
      let val = m.cpu.gpr (rs2 instr) in
      let (old_val, m₁) = bus_read undef bus pa 4 m in
      let m₂ = bus_write bus pa (add64 val old_val) 4 m₁ in
      on_cpu (λ c. advance (write_gpr c (rd instr) (sext 32 old_val)) 4) m₂

  -- Any other atomic operation leaves the machine as the translation left it, the pc too.
  unfoldable pub exec_amo : ℕ → Machine D → Machine D
  exec_amo instr m =
      let (pa, m₁) = get_pa undef bus (m.cpu.gpr (rs1 instr)) store m in
      let op = bits instr 27 5 in
      let done =
        if op == 1 then amoswap_w instr pa m₁ else if op == 0 then amoadd_w instr pa m₁ else m₁ in
      if funct3 instr == 2 then done else m₁
