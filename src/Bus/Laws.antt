-- ===== src/Bus/Laws.antt =====
-- src/bus.c with the registrations of src/main.c: accesses through the bus.
use risc_v_emulator.Prelude.{
  ℕ, ◌+◌, ◌-◌, ◌*◌, ◌%◌, ◌^◌, ◌≤◌, ◌<◌, ◌≡◌, ◌⊎◌, inl, inr, refl, arith, Bool-cases,
}
use risc_v_emulator.Prelude.{Bool, ◌||◌, not, false, ◌&&◌, if◌then◌else◌, List, [], ◌∷◌}
use risc_v_emulator.Machine.{Machine, Region, Undefined, memory_base, memory_size}
use risc_v_emulator.Memory.{ram_read, ram_write}
use risc_v_emulator.Memory.Laws.{IsBytes, ram_read-ram_write, ram_read-ram_write_apart}
use risc_v_emulator.Bus.{holds, bus_read, bus_write, bus_register_mmio}

module _ {D : Type 0} where
  -- The registration of RAM in `main`.
  abbrev pub ram_region : Region D
  ram_region = record { base = memory_base; size = memory_size; read = ram_read; write = ram_write }

  pub bus_read_ram :
      (undef : Undefined) (rs : List (Region D)) (addr n : ℕ) (m : Machine D)
      → memory_base ≤ addr
      → addr < memory_base + memory_size
      → bus_read undef (ram_region ∷ rs) addr n m ≡ ram_read (addr - memory_base) n m
  unfolding bus_read
  bus_read_ram undef rs addr n m lo hi = ground arith

  pub bus_write_ram :
      (rs : List (Region D)) (addr v n : ℕ) (m : Machine D)
      → memory_base ≤ addr
      → addr < memory_base + memory_size
      → bus_write (ram_region ∷ rs) addr v n m ≡ ram_write (addr - memory_base) v n m
  unfolding bus_write
  bus_write_ram rs addr v n m lo hi = ground arith

  -- With RAM registered first, as `main` does, a value that an access of one to eight bytes
  -- writes inside a RAM of bytes through the bus is read back, cut to the size of the access.
  pub bus_read-bus_write :
      (undef : Undefined) (rs : List (Region D)) (m : Machine D) (addr v n : ℕ)
      → IsBytes m
      → memory_base ≤ addr
      → addr + n ≤ memory_base + memory_size
      → 0 < n
      → n ≤ 8
      → let bus = ram_region ∷ rs in
        (bus_read undef bus addr n (bus_write bus addr v n m)).0 ≡ v % 2 ^ (8 * n)
  bus_read-bus_write undef rs m addr v n bytes lo hi pos small =
      rw
        (
          bus_write_ram rs addr v n m lo (omega arith),
          bus_read_ram undef rs addr n (ram_write (addr - memory_base) v n m) lo (omega arith),
        )
        (ram_read-ram_write m (addr - memory_base) v n bytes (omega arith) (omega arith) small)

  -- With RAM registered first, a write of one to eight bytes inside a RAM of bytes through the
  -- bus leaves what a read of one to eight other bytes of RAM gives.
  pub bus_read-bus_write_apart :
      (undef : Undefined) (rs : List (Region D)) (m : Machine D) (addr v n a k : ℕ)
      → IsBytes m
      → memory_base ≤ addr
      → addr + n ≤ memory_base + memory_size
      → 0 < n
      → n ≤ 8
      → memory_base ≤ a
      → a + k ≤ memory_base + memory_size
      → 0 < k
      → k ≤ 8
      → (a + k ≤ addr) ⊎ (addr + n ≤ a)
      → let bus = ram_region ∷ rs in
        (bus_read undef bus a k (bus_write bus addr v n m)).0 ≡ (bus_read undef bus a k m).0
  bus_read-bus_write_apart undef rs m addr v n a k bytes lo hi pos small lo' hi' pos' small' apart =
      rw
        (
          bus_write_ram rs addr v n m lo (omega arith),
          bus_read_ram undef rs a k (ram_write (addr - memory_base) v n m) lo' (omega arith),
          bus_read_ram undef rs a k m lo' (omega arith),
        )
        (ram_read-ram_write_apart m (addr - memory_base) v n (a - memory_base) k bytes (omega arith)
          small (omega arith) (omega arith) small' (ground arith))

  -- Some region of the list holds the address.
  abbrev pub is_taken : List (Region D) → ℕ → Bool
  is_taken [] addr = false
  is_taken (r ∷ rs) addr = holds r addr || is_taken rs addr

  -- A newly registered region takes over the addresses that it holds and no earlier region does;
  -- the others are served as before, reads and writes alike.
  pub bus_register_mmio_lem :
      (undef : Undefined) (rs : List (Region D)) (r : Region D) (addr v n : ℕ) (m : Machine D)
      → let rs' = bus_register_mmio rs r in
        let mine = not (is_taken rs addr) && holds r addr in
        (bus_read undef rs' addr n m
          ≡ (if mine then r.read (addr - r.base) n m else bus_read undef rs addr n m))
        × (bus_write rs' addr v n m
            ≡ (if mine then r.write (addr - r.base) v n m else bus_write rs addr v n m))
  unfolding bus_read bus_write bus_register_mmio
  bus_register_mmio_lem undef [] r addr v n m = (ground arith, ground arith)
  bus_register_mmio_lem undef (s ∷ rs) r addr v n m =
      let ih = bus_register_mmio_lem undef rs r addr v n m in
      elim (Bool-cases (holds s addr)) [
        | inl e ↦ (rw e refl, rw e refl)
        | inr e ↦ (rw e ih.0, rw e ih.1)
      ]
