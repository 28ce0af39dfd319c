-- ===== src/Bus.antt =====
-- src/bus.c: the first region that holds an address serves it; else RAM does.
pub mod Laws
use risc_v_emulator.Prelude.{ℕ, Bool, ◌+◌, ◌-◌, ltb, leb, ◌&&◌, if◌then◌else◌, add64, sub64}
use risc_v_emulator.Prelude.{List, [], ◌∷◌, ◌++◌}
use risc_v_emulator.Machine.{Machine, Region, Undefined, memory_base, memory_size, halt}
use risc_v_emulator.Memory.{read_loop, write_loop}

-- A fallback access needs its last byte in RAM too.
abbrev ends_in_ram : ℕ → ℕ → Bool
ends_in_ram addr size = ltb (sub64 (add64 addr size) 1) (memory_base + memory_size)

module _ {D : Type 0} where
  -- `addr >= r->base && addr < r->base + r->size`.
  abbrev pub holds : Region D → ℕ → Bool
  holds r addr = leb r.base addr && ltb addr (add64 r.base r.size)

  -- The regions that were registered, in order. The source's array has eight places and no check.
  unfoldable pub bus_register_mmio : List (Region D) → Region D → List (Region D)
  bus_register_mmio bus r = bus ++ (r ∷ [])

  unfoldable pub bus_read : Undefined → List (Region D) → ℕ → ℕ → Machine D → ℕ × Machine D
  bus_read undef [] addr size m =
      if ltb memory_base addr && ends_in_ram addr size
      then (read_loop m.mem (addr - memory_base) size 0 0, m)
      else (undef.unmapped addr size, m)
  bus_read undef (r ∷ rs) addr size m =
      if holds r addr then r.read (addr - r.base) size m else bus_read undef rs addr size m

  -- A write that no region and no RAM takes halts the hart.
  unfoldable pub bus_write : List (Region D) → ℕ → ℕ → ℕ → Machine D → Machine D
  bus_write [] addr val size m =
      if leb memory_base addr && ends_in_ram addr size
      then record m { mem = write_loop (addr - memory_base) val size 0 m.mem }
      else halt m
  bus_write (r ∷ rs) addr val size m =
      if holds r addr then r.write (addr - r.base) val size m else bus_write rs addr val size m
