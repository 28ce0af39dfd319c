-- ===== src/Main.antt =====
-- src/main.c and `cpu_init` of src/cpu.c: the devices on the bus, and the start of the hart.
pub mod Map
pub mod Boot
pub mod Round
pub mod Vector
use risc_v_emulator.Prelude.{ℕ, ◌+◌, ◌*◌, ◌^◌, true, false, Option, none, some, List, []}
use risc_v_emulator.Cpu.{Cpu, TlbEntry, MemFault}
use risc_v_emulator.Machine.{Machine, Region, set_cpu}
use risc_v_emulator.Clint.{clint_init, clint_base, clint_size}
use risc_v_emulator.Mmu.Tlb.{tlb_flush}
use risc_v_emulator.Bus.{bus_register_mmio}
use risc_v_emulator.Bus.Laws.{ram_region}
use risc_v_emulator.Elf.{File, load_elf64_sbi}

abbrev pub zero_entry : TlbEntry
zero_entry = record {
  tag = 0;
  ppn = 0;
  flags = 0;
  valid = false;
  global = false;
  asid = 0;
  last_used = 0;
}

-- `cpu_init`: all bytes 0, then M mode, the timer and `running`.
unfoldable pub cpu_init : Cpu
cpu_init = record {
  pc = 0;
  gpr = λ r. 0;
  fgpr = λ r. 0;
  csr = λ n. 0;
  privilege = 3;
  running = true;
  halted = false;
  cycle_count = 0;
  inst_count = 0;
  satp = 0;
  asid = 0;
  mxr = 0;
  sum = 0;
  tlb = λ i. zero_entry;
  next_replace = 0;
  i_tlb = λ i. zero_entry;
  d_tlb = λ i. zero_entry;
  tlb_cnt = 0;
  clint = clint_init;
  mem_fault = record { valid = false; acc_type = 0; cause = 0; vaddr = 0 };
}

abbrev pub uart_base : ℕ
uart_base = 0x10000000

abbrev pub uart_size : ℕ
uart_size = 0x100

abbrev pub plic_base : ℕ
plic_base = 0x0c000000

abbrev pub plic_size : ℕ
plic_size = 0x4000000

abbrev pub virtio_mmio_base : ℕ
virtio_mmio_base = 0x10001000

abbrev pub virtio_mmio_size : ℕ
virtio_mmio_size = 0x1000

-- `entry_addr` and the RAM after the call of the loader on zeroed memory. A loader that fails has
-- not set `entry_addr`, whose value is then `unset`.
unfoldable pub loaded_kernel : ℕ → Option (ℕ × ℕ × (ℕ → ℕ)) → ℕ × (ℕ → ℕ)
loaded_kernel unset none = (unset, λ i. 0)
loaded_kernel unset (some r) = (r.0, r.2)

-- The two handlers that `main` registers for a device.
pub record Handlers (D : Type 0) : Type 0 where
  pub on_read : ℕ → ℕ → Machine D → ℕ × Machine D
  pub on_write : ℕ → ℕ → ℕ → Machine D → Machine D

module _ {D : Type 0} where
  abbrev pub region_at : ℕ → ℕ → Handlers D → Region D
  region_at base size h = record { base = base; size = size; read = h.on_read; write = h.on_write }

  -- The five calls of `bus_register_mmio`, in order.
  unfoldable pub memory_map : Handlers D → Handlers D → Handlers D → Handlers D → List (Region D)
  memory_map uart plic disk clint =
      let with_ram = bus_register_mmio [] ram_region in
      let with_uart = bus_register_mmio with_ram (region_at uart_base uart_size uart) in
      let with_plic = bus_register_mmio with_uart (region_at plic_base plic_size plic) in
      let with_disk =
        bus_register_mmio with_plic (region_at virtio_mmio_base virtio_mmio_size disk) in
      bus_register_mmio with_disk (region_at clint_base clint_size clint)

  abbrev pub start_at : D → ℕ × (ℕ → ℕ) → Machine D
  start_at dev (entry_addr, mem) =
      let c = tlb_flush cpu_init in
      record { cpu = record c { pc = entry_addr }; mem = mem; dev = dev }

  -- The machine before the first round of the emulation, with the devices in the state `dev`.
  unfoldable pub boot : ℕ → Option File → D → Machine D
  boot unset kernel dev = start_at dev (loaded_kernel unset (load_elf64_sbi kernel (λ i. 0)))
