-- ===== src/Memory/Binary.antt =====
-- src/memory.c: `memory_load_binary`, which puts a whole file into the RAM, and `init_memory`.
use risc_v_emulator.Prelude.{
  ℕ, ◌+◌, ◌-◌, ◌^◌, ◌≤◌, ◌<◌, ◌≡◌, arith, ◌&&◌, ltb, leb, if◌then◌else◌, Option, none, some, add64,
  sub64,
}
use risc_v_emulator.Machine.{memory_base, memory_size}
use risc_v_emulator.Elf.{File, fread_into}

-- `init_memory`: the array that is allocated holds zeros.
abbrev pub init_memory : ℕ → ℕ
init_memory a = 0

abbrev pub physical_address : ℕ → ℕ
physical_address virtual_addr = sub64 virtual_addr memory_base

-- `none` is a file that cannot be opened.
unfoldable pub memory_load_binary : Option File → ℕ → (ℕ → ℕ) → ℕ → ℕ
memory_load_binary none load_address mem = mem
memory_load_binary (some f) load_address mem =
    let phys_addr = physical_address load_address in
    if ltb memory_size (add64 phys_addr f.length)
    then mem
    else fread_into f 0 f.length phys_addr mem

-- For a load address in or above the RAM and a file of less than 2 ^ 63 bytes: a file that ends
-- inside the RAM is there byte for byte, and the rest of the array is as before; of any other file
-- nothing is written.
pub memory_load_binary_lem :
    (f : File) (load_address a : ℕ) (mem : ℕ → ℕ)
    → memory_base ≤ load_address
    → load_address < 2 ^ 63
    → f.length < 2 ^ 63
    → let at = load_address - memory_base in
      memory_load_binary (some f) load_address mem a ≡ (
        if leb (at + f.length) memory_size && (leb at a && ltb a (at + f.length))
        then f.content (a - at)
        else mem a)
unfolding memory_load_binary fread_into
memory_load_binary_lem f load_address a mem h k l =
    let at : physical_address load_address ≡ load_address - memory_base = ground arith in
    let from : 0 + (a - (load_address - memory_base)) ≡ a - (load_address - memory_base) =
      omega arith in
    rw (at) (ground (arith, from))
