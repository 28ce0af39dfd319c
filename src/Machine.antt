-- ===== src/Machine.antt =====
-- What the parts of the emulator share: the hart, the RAM array `memory`, the devices behind the
-- bus (src/bus.h), and the values of three expressions that C leaves undefined.
use risc_v_emulator.Prelude.{ℕ, true}
use risc_v_emulator.Cpu.{Cpu}

-- `cpu[0]`, `memory` and the state of the devices, of a type `D` that the bus does not look into.
pub record Machine (D : Type 0) : Type 0 where
  pub cpu : Cpu
  pub mem : ℕ → ℕ
  pub dev : D

-- `MMIORegion`: the two function pointers with their `opaque` argument act on the machine.
-- Arguments are offset and size, and offset, value and size.
pub record Region (D : Type 0) : Type 0 where
  pub base : ℕ
  pub size : ℕ
  pub read : ℕ → ℕ → Machine D → ℕ × Machine D
  pub write : ℕ → ℕ → ℕ → Machine D → Machine D

-- The values that the compiled program takes where the C text has no defined one:
-- `1u << 63` (src/trap.c), `(1 << 44) - 1` (src/mmu.c), and what `bus_read` returns when it
-- runs off its end at an address and size.
pub record Undefined : Type 0 where
  pub shl_1u_63 : ℕ
  pub ppn_mask : ℕ
  pub unmapped : ℕ → ℕ → ℕ

abbrev pub memory_base : ℕ
memory_base = 0x80000000

abbrev pub memory_size : ℕ
memory_size = 0x40000000

module _ {D : Type 0} where
  abbrev pub set_cpu : Machine D → Cpu → Machine D
  set_cpu m c = record m { cpu = c }

  abbrev pub halt : Machine D → Machine D
  halt m = set_cpu m (let c = m.cpu in record c { halted = true })
