-- ===== src/Mmu/Physical.antt =====
-- src/mmu.c: the accesses to the array `memory` by `phys_read_u32` and its kin, and `init_page_table`,
-- which use physical addresses as indices. `none` is an access outside of the array, which has no
-- defined value. Of these the emulation calls `phys_read_u64` only, in the walk.
use risc_v_emulator.Prelude.{
  ℕ, zero, suc, ◌+◌, ◌*◌, ◌%◌, ◌^◌, ◌≤◌, ◌≡◌, refl, arith, ap, true, false, ◌==◌, ltb, leb, not,
  if◌then◌else◌, List, Option, none, some, ◌>>=◌, add64, bits, bit_or, sext,
}
use risc_v_emulator.Machine.{Machine, Region, Undefined, set_cpu, memory_base, memory_size}
use risc_v_emulator.Memory.{read_loop, write_loop, ram_read, ram_write}
use risc_v_emulator.Memory.Laws.{IsBytes, ram_read-ram_write}
use risc_v_emulator.Bus.{bus_read, bus_write}
use risc_v_emulator.Mmu.Walk.{phys_ok}

module _ {D : Type 0} where
  -- Four bytes as an `int`, which the result extends by its sign.
  unfoldable pub phys_read_u32 : ℕ → Machine D → Option ℕ
  phys_read_u32 pa m =
      if not (phys_ok pa 4)
      then some 0
      else if ltb (pa + 3) memory_size
      then some (sext 32 (read_loop m.mem pa 4 0 0))
      else none

  unfoldable pub phys_write_u32 : ℕ → ℕ → Machine D → Option (Machine D)
  phys_write_u32 pa v m =
      if not (phys_ok pa 4)
      then some m
      else if ltb (pa + 3) memory_size
      then some (record m { mem = write_loop pa v 4 0 m.mem })
      else none

  unfoldable pub phys_atomic_or_u32 : ℕ → ℕ → Machine D → Option (Machine D)
  phys_atomic_or_u32 pa mask m = do
    old ← phys_read_u32 pa m
    if bit_or old mask == old then some m else phys_write_u32 pa (bit_or old mask) m

  -- `asid` 1, and the tables at 0x90000000 and at `0xA0000 << 12`, an `int` that is extended by its
  -- sign.
  unfoldable pub init_page_table : Machine D → Option (Machine D)
  init_page_table m = do
    let va : ℕ = 0x7fff0000
    let satp : ℕ = bit_or (2 ^ 31) (bit_or (2 ^ 22) 0x90000)
    let l1_tsa : ℕ = satp % 2 ^ 22 * 2 ^ 12
    let l0_tsa : ℕ = sext 32 (0xa0000 * 2 ^ 12)
    let pte_addr1 : ℕ = add64 l1_tsa (bits va 22 10 * 4)
    let pte_addr0 : ℕ = add64 l0_tsa (bits va 12 10 * 4)
    let start : Machine D = set_cpu m (let c = m.cpu in record c { asid = 1; satp = satp })
    m₁ ← phys_write_u32 pte_addr1 0x28000031 start
    m₂ ← phys_write_u32 pte_addr0 0x2000001f m₁
    m₃ ← phys_write_u32 0xa0000fc4 0x2000101f m₂
    phys_write_u32 0xa0000fc8 0x2000200f m₃

  -- Four bytes in the RAM, at a physical address, are outside of the array.
  phys_write_u32_ram :
      (pa v : ℕ) (m : Machine D)
      → memory_base ≤ pa
      → pa + 4 ≤ memory_base + memory_size
      → phys_write_u32 pa v m ≡ none
  unfolding phys_write_u32
  phys_write_u32_ram pa v m low high = ground arith

  phys_read_u32_ram :
      (pa : ℕ) (m : Machine D)
      → memory_base ≤ pa
      → pa + 4 ≤ memory_base + memory_size
      → phys_read_u32 pa m ≡ none
  unfolding phys_read_u32
  phys_read_u32_ram pa m low high = ground arith

  stored_word :
      (pa v : ℕ) (m : Machine D)
      → IsBytes m
      → pa + 4 ≤ memory_size
      → read_loop (write_loop pa v 4 0 m.mem) pa 4 0 0 ≡ v % 2 ^ 32
  unfolding ram_read ram_write
  stored_word pa v m bytes fits =
      let written : ltb memory_size (add64 pa 4) ≡ false = ground arith in
      let inside : leb memory_size pa ≡ false = ground arith in
      rw⁻¹ (ram_read-ram_write m pa v 4 bytes fits (omega arith) (omega arith))
        (rw (written, inside) refl)

  -- In the array a word is read back as it was written, with the sign of its 32 bits.
  phys_read_u32-phys_write_u32 :
      (pa v : ℕ) (m : Machine D)
      → IsBytes m
      → pa + 4 ≤ memory_size
      → (phys_write_u32 pa v m >>= (λ m'. phys_read_u32 pa m')) ≡ some (sext 32 v)
  unfolding phys_read_u32 phys_write_u32
  phys_read_u32-phys_write_u32 pa v m bytes fits =
      let allowed : phys_ok pa 4 ≡ true = ground arith in
      let inside : ltb (pa + 3) memory_size ≡ true = ground arith in
      rw (allowed, inside, stored_word pa v m bytes fits) (ap some (ground arith))

  -- `init_page_table` never gets past its first entry.
  init_page_table-none : (m : Machine D) → init_page_table m ≡ none
  unfolding init_page_table phys_write_u32
  init_page_table-none m = refl

module _ {D : Type 0} (undef : Undefined) (bus : List (Region D)) where
  -- `for (j = 0; j < 8; j++) bus_write(&cpu->bus, pa, nw, 8)`.
  unfoldable pub write_again : ℕ → ℕ → ℕ → Machine D → Machine D
  write_again zero pa nw m = m
  write_again (suc left) pa nw m = write_again left pa nw (bus_write bus pa nw 8 m)

  unfoldable pub phys_read_u64 : ℕ → Machine D → ℕ × Machine D
  phys_read_u64 pa m = bus_read undef bus pa 8 m

  unfoldable pub phys_atomic_or_u64 : ℕ → ℕ → Machine D → Machine D
  unfolding phys_read_u64 write_again
  phys_atomic_or_u64 pa mask m =
      let (old, m₁) = bus_read undef bus pa 8 m in
      let nw = bit_or old mask in if nw == old then m₁ else write_again 8 pa nw m₁
