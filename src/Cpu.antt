-- ===== src/Cpu.antt =====
-- src/cpu.h, src/clint.h and the CSR numbers of src/common.h: the state of one hart, and the
-- accesses to its registers that the instruction handlers share.
use risc_v_emulator.Prelude.{ℕ, Bool, update, add64, if◌then◌else◌, ◌==◌, bits}

-- `TLBEntry`.
pub record TlbEntry : Type 0 where
  pub tag : ℕ
  pub ppn : ℕ
  pub flags : ℕ
  pub valid : Bool
  pub global : Bool
  pub asid : ℕ
  pub last_used : ℕ

-- `CLINT`, without the two callbacks, which no code calls.
pub record Clint : Type 0 where
  pub mtime : ℕ
  pub mtimecmp : ℕ
  pub stimecmp : ℕ
  pub msip : ℕ
  pub timer_interrupt_pending : Bool
  pub software_interrupt_pending : Bool

-- The field `mem_fault` of `CPU_State`.
pub record MemFault : Type 0 where
  pub valid : Bool
  pub acc_type : ℕ
  pub cause : ℕ
  pub vaddr : ℕ

-- `CPU_State`: the fields that the modelled code reads or writes. Registers, CSRs and TLB entries
-- are arrays, as functions on their indices.
pub record Cpu : Type 0 where
  pub pc : ℕ
  pub gpr : ℕ → ℕ
  pub fgpr : ℕ → ℕ
  pub csr : ℕ → ℕ
  pub privilege : ℕ
  pub running : Bool
  pub halted : Bool
  pub cycle_count : ℕ
  pub inst_count : ℕ
  pub satp : ℕ
  pub asid : ℕ
  pub mxr : ℕ
  pub sum : ℕ
  pub tlb : ℕ → TlbEntry
  pub next_replace : ℕ
  pub i_tlb : ℕ → TlbEntry
  pub d_tlb : ℕ → TlbEntry
  pub tlb_cnt : ℕ
  pub clint : Clint
  pub mem_fault : MemFault

-- The CSR numbers.
abbrev pub csr_sstatus : ℕ
csr_sstatus = 0x100

abbrev pub csr_sie : ℕ
csr_sie = 0x104

abbrev pub csr_stvec : ℕ
csr_stvec = 0x105

abbrev pub csr_sepc : ℕ
csr_sepc = 0x141

abbrev pub csr_scause : ℕ
csr_scause = 0x142

abbrev pub csr_stval : ℕ
csr_stval = 0x143

abbrev pub csr_sip : ℕ
csr_sip = 0x144

abbrev pub csr_stimecmp : ℕ
csr_stimecmp = 0x14d

abbrev pub csr_satp : ℕ
csr_satp = 0x180

abbrev pub csr_mstatus : ℕ
csr_mstatus = 0x300

abbrev pub csr_mideleg : ℕ
csr_mideleg = 0x303

abbrev pub csr_mie : ℕ
csr_mie = 0x304

abbrev pub csr_mtvec : ℕ
csr_mtvec = 0x305

abbrev pub csr_mcountern : ℕ
csr_mcountern = 0x306

abbrev pub csr_menvcfg : ℕ
csr_menvcfg = 0x30a

abbrev pub csr_mepc : ℕ
csr_mepc = 0x341

abbrev pub csr_mcause : ℕ
csr_mcause = 0x342

abbrev pub csr_mtval : ℕ
csr_mtval = 0x343

abbrev pub csr_mip : ℕ
csr_mip = 0x344

abbrev pub csr_time : ℕ
csr_time = 0xc01

-- `read_csr` and `write_csr`.
abbrev pub read_csr : Cpu → ℕ → ℕ
read_csr c id = c.csr (bits id 0 12)

abbrev pub write_csr : Cpu → ℕ → ℕ → Cpu
write_csr c id v = record c { csr = update c.csr (bits id 0 12) v }

-- `cpu->gpr[rd] = val`.
abbrev pub put_gpr : Cpu → ℕ → ℕ → Cpu
put_gpr c rd val = record c { gpr = update c.gpr rd val }

-- `write_gpr`, which is also the guard `if (rd != 0)` that the handlers repeat.
abbrev pub write_gpr : Cpu → ℕ → ℕ → Cpu
write_gpr c rd val = record c { gpr = if rd == 0 then c.gpr else update c.gpr rd val }

-- `cpu->pc += n`.
abbrev pub advance : Cpu → ℕ → Cpu
advance c n = record c { pc = add64 c.pc n }
