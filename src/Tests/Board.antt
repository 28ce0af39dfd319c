-- ===== src/Tests/Board.antt =====
-- A hart in U mode and a machine with RAM alone on the bus, for the tests.
use risc_v_emulator.Prelude.{
  ℕ, ◌-◌, ◌^◌, ◌==◌, ap, false, true, if◌then◌else◌, List, [], ◌∷◌, arith,
}
use risc_v_emulator.Cpu.{Cpu, TlbEntry, Clint, MemFault}
use risc_v_emulator.Machine.{Machine, Region, Undefined}
use risc_v_emulator.Memory.Laws.{IsBytes}
use risc_v_emulator.Bus.Laws.{ram_region}
use risc_v_emulator.Exec.Zero.Devices.{AllKeep, gprs, instructions}
use risc_v_emulator.Exec.Access.Bare.{ram_write-cpu, ram_read-machine}

abbrev no_entry : TlbEntry
no_entry = record {
  tag = 0;
  ppn = 0;
  flags = 0;
  valid = false;
  global = false;
  asid = 0;
  last_used = 0;
}

abbrev pub timer : Clint
timer = record {
  mtime = 90;
  mtimecmp = 0;
  stimecmp = 100;
  msip = 0;
  timer_interrupt_pending = false;
  software_interrupt_pending = false;
}

abbrev no_fault : MemFault
no_fault = record { valid = false; acc_type = 0; cause = 0; vaddr = 0 }

-- A stack pointer into RAM, and two operands.
abbrev pub registers : ℕ → ℕ
registers r = if r == 2 then 0x80001000 else if r == 5 then 0x1ff else if r == 6 then 7 else 0

-- The timer interrupt is pending and enabled, and the time CSRs are open.
abbrev pub control : ℕ → ℕ
control n = if n == 0x344 then 0x20 else if n == 0x104 then 0x20 else if n == 0x306 then 2 else 0

abbrev pub hart : Cpu
hart = record {
  pc = 0x80000000;
  gpr = registers;
  fgpr = λ r. 0;
  csr = control;
  privilege = 0;
  running = true;
  halted = false;
  cycle_count = 0;
  inst_count = 0;
  satp = 0;
  asid = 0;
  mxr = 0;
  sum = 0;
  tlb = λ i. no_entry;
  next_replace = 0;
  i_tlb = λ i. no_entry;
  d_tlb = λ i. no_entry;
  tlb_cnt = 0;
  clint = timer;
  mem_fault = no_fault;
}

abbrev pub machine : Machine ℕ
machine = record { cpu = hart; mem = λ i. 0; dev = 0 }

abbrev pub undef : Undefined
undef = record { shl_1u_63 = 2 ^ 31; ppn_mask = 2 ^ 64 - 1; unmapped = λ a n. 0 }

abbrev pub ram_bus : List (Region ℕ)
ram_bus = ram_region ∷ []

pub ram_bus-AllKeep : AllKeep gprs ram_bus
ram_bus-AllKeep = (
  record {
    on_read = λ off n m. ap (λ (x : Machine ℕ). x.cpu.gpr) (ram_read-machine off n m);
    on_write = λ off v n m. ap (λ (c : Cpu). c.gpr) (ram_write-cpu off v n m);
  },
  tt,
)

-- RAM leaves the count of instructions alone too.
pub ram_bus-AllKeep_count : AllKeep instructions ram_bus
ram_bus-AllKeep_count = (
  record {
    on_read = λ off n m.
        ap {B = ℕ → ℕ} (λ (x : Machine ℕ) (r : ℕ). x.cpu.inst_count) (ram_read-machine off n m);
    on_write =
        λ off v n m. ap {B = ℕ → ℕ} (λ (c : Cpu) (r : ℕ). c.inst_count) (ram_write-cpu off v n m);
  },
  tt,
)

pub machine-IsBytes : IsBytes machine
machine-IsBytes i = omega arith
