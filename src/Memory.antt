-- ===== src/Memory.antt =====
-- src/memory.c: the RAM device and the direct accesses to the array `memory`. The array holds
-- `memory_size` bytes, as a function on offsets.
pub mod Bytes
pub mod Laws
pub mod Binary
use risc_v_emulator.Prelude.{ℕ, zero, suc, ◌+◌, ◌-◌, ◌*◌, ◌/◌, ◌%◌, ◌^◌, ltb, leb, if◌then◌else◌}
use risc_v_emulator.Prelude.{update, add64, u64, bit_or, ◌||◌}
use risc_v_emulator.Machine.{Machine, memory_base, memory_size, halt}

-- `for (i = 0; i < size; i++) val |= data[offset + i] << (8 * i)`, with `left` rounds to go.
unfoldable pub read_loop : (ℕ → ℕ) → ℕ → ℕ → ℕ → ℕ → ℕ
read_loop mem offset zero i val = val
read_loop mem offset (suc left) i val =
    read_loop mem offset left (i + 1) (bit_or val (u64 (mem (offset + i) * 2 ^ (8 * i))))

-- `for (i = 0; i < size; i++) mem[offset + i] = (value >> (8 * i)) & 0xff`.
unfoldable pub write_loop : ℕ → ℕ → ℕ → ℕ → (ℕ → ℕ) → ℕ → ℕ
write_loop offset value zero i mem = mem
write_loop offset value (suc left) i mem =
    write_loop offset value left (i + 1) (update mem (offset + i) (value / 2 ^ (8 * i) % 256))

-- The offset into `memory` by which `memory_read` translates an address.
read_offset : ℕ → ℕ
read_offset address =
    if leb memory_base address
    then address - memory_base
    else if leb 0x10001000 address
    then address - 0x10001000
    else if leb 0x02000000 address
    then address - 0x02000000
    else if leb 0x0c000000 address
    then address - 0x0c000000
    else 0

module _ {D : Type 0} where
  -- The second test of the source, `offset >= ram->size`, is reached too.
  unfoldable pub ram_read : ℕ → ℕ → Machine D → ℕ × Machine D
  ram_read offset size m =
      if ltb memory_size (add64 offset size) || leb memory_size offset
      then (0, m)
      else (read_loop m.mem offset size 0 0, m)

  unfoldable pub ram_write : ℕ → ℕ → ℕ → Machine D → Machine D
  ram_write offset value size m =
      if ltb memory_size (add64 offset size)
      then m
      else record m { mem = write_loop offset value size 0 m.mem }

  -- Out of bounds the read halts the hart and returns 0.
  unfoldable pub memory_read : ℕ → ℕ → Machine D → ℕ × Machine D
  unfolding read_offset
  memory_read address size m =
      let offset = read_offset address in
      if ltb memory_size (add64 offset size)
      then (0, halt m)
      else (read_loop m.mem offset size 0 0, m)

  -- The copy is `memcpy` from a little-endian word.
  unfoldable pub memory_write : ℕ → ℕ → ℕ → Machine D → Machine D
  memory_write address value size m =
      let phys_addr =
        if leb memory_base address
        then address - memory_base
        else if leb 0x10001000 address
        then address - 0x10001000
        else 0 in
      if ltb memory_size (add64 phys_addr size)
      then m
      else record m { mem = write_loop phys_addr value size 0 m.mem }
