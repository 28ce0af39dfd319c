-- ===== src/Elf.antt =====
-- src/elf_load.c: `load_elf64_SBI`, which puts a kernel or a firmware into RAM.
pub mod Segment
pub mod Image
pub mod Bare
pub mod Virt
use risc_v_emulator.Prelude.{
  ℕ, zero, suc, ◌+◌, ◌-◌, ◌*◌, ◌/◌, ◌%◌, ◌^◌, Bool, true, false, ◌==◌, ◌&&◌, ◌||◌, not, ltb, leb,
  if◌then◌else◌, Option, none, some, add64, sub64,
}
use risc_v_emulator.Machine.{memory_base, memory_size}

-- The fields of `Elf64_Ehdr` or `Elf32_Ehdr` that the loaders use.
pub record Ehdr : Type 0 where
  pub e_ident : ℕ → ℕ
  pub e_type : ℕ
  pub e_machine : ℕ
  pub e_entry : ℕ
  pub e_phoff : ℕ
  pub e_phentsize : ℕ
  pub e_phnum : ℕ

-- Those of `Elf64_Phdr` or `Elf32_Phdr`.
pub record Phdr : Type 0 where
  pub p_type : ℕ
  pub p_flags : ℕ
  pub p_offset : ℕ
  pub p_vaddr : ℕ
  pub p_paddr : ℕ
  pub p_filesz : ℕ
  pub p_memsz : ℕ

-- What the C library reads from an open file: the header, the program header at an offset, and the
-- bytes. `none` is a read that comes short or a seek that fails.
pub record File : Type 0 where
  pub header : Option Ehdr
  pub phdr_at : ℕ → Option Phdr
  pub length : ℕ
  pub content : ℕ → ℕ

-- `fread(dst, 1, count, f)` after a seek to `offset`: how many bytes there are, and the array.
abbrev pub available : File → ℕ → ℕ → ℕ
available f offset count = if ltb (f.length - offset) count then f.length - offset else count

unfoldable pub fread_into : File → ℕ → ℕ → ℕ → (ℕ → ℕ) → ℕ → ℕ
fread_into f offset count dst mem a =
    if leb dst a && ltb a (dst + available f offset count)
    then f.content (offset + (a - dst))
    else mem a

-- `memset(dst, 0, count)`.
unfoldable pub zero_fill : ℕ → ℕ → (ℕ → ℕ) → ℕ → ℕ
zero_fill dst count mem a = if leb dst a && ltb a (dst + count) then 0 else mem a

abbrev pub em_riscv : ℕ
em_riscv = 243

abbrev pub et_dyn : ℕ
et_dyn = 3

abbrev pub pt_load : ℕ
pt_load = 1

-- `memcmp(e_ident, ELFMAG, SELFMAG) == 0`.
abbrev pub is_elf : Ehdr → Bool
is_elf eh =
    ((eh.e_ident 0 == 0x7f && eh.e_ident 1 == 0x45) && eh.e_ident 2 == 0x4c) && eh.e_ident 3 == 0x46

-- A position independent file starts at 0x80000000.
abbrev pub load_base : Ehdr → ℕ
load_base eh = if eh.e_type == et_dyn then 0x80000000 else 0

abbrev pub entry_point : Ehdr → ℕ
entry_point eh =
    if eh.e_type == et_dyn
    then (if eh.e_entry == 0 then 0x80000000 else add64 eh.e_entry 0x80000000)
    else eh.e_entry

abbrev pub phys_addr : Ehdr → Phdr → ℕ
phys_addr eh ph = add64 ph.p_vaddr (load_base eh)

-- `phys_addr < MEMORY_BASE || phys_addr + p_memsz > MEMORY_BASE + MEMORY_SIZE`.
abbrev pub out_of_range : ℕ → Phdr → Bool
out_of_range phys ph =
    ltb phys memory_base || ltb (memory_base + memory_size) (add64 phys ph.p_memsz)

-- An offset that `off_t` takes for a negative one fails the seek.
abbrev pub cannot_seek : Phdr → Bool
cannot_seek ph = ltb 0 ph.p_filesz && leb (2 ^ 63) ph.p_offset

-- The bytes of a segment: those of the file, and zeros up to its size in memory.
unfoldable pub put_segment : File → ℕ → Phdr → (ℕ → ℕ) → ℕ → ℕ
put_segment f dst ph mem =
    let filled = fread_into f ph.p_offset ph.p_filesz dst mem in
    if ltb ph.p_filesz ph.p_memsz
    then zero_fill (dst + ph.p_filesz) (ph.p_memsz - ph.p_filesz) filled
    else filled

abbrev pub loads : Ehdr → Phdr → Bool
loads eh ph = ph.p_type == pt_load && not (out_of_range (phys_addr eh ph) ph || cannot_seek ph)

-- A round of the loop over the program headers: the count of segments, and the RAM.
unfoldable pub load_segment : File → Ehdr → Option Phdr → ℕ × (ℕ → ℕ) → ℕ × (ℕ → ℕ)
load_segment f eh none (n, mem) = (n, mem)
load_segment f eh (some ph) (n, mem) =
    if loads eh ph then (n + 1, put_segment f (phys_addr eh ph - memory_base) ph mem) else (n, mem)

abbrev pub header_at : File → Ehdr → ℕ → Option Phdr
header_at f eh i = f.phdr_at (add64 eh.e_phoff (i * eh.e_phentsize))

-- `for (i = 0; i < e_phnum; ++i)`, with `left` rounds to go.
unfoldable pub load_loop : File → Ehdr → ℕ → ℕ → ℕ × (ℕ → ℕ) → ℕ × (ℕ → ℕ)
load_loop f eh zero i st = st
load_loop f eh (suc left) i st =
    load_loop f eh left (i + 1) (load_segment f eh (header_at f eh i) st)

-- The checks of the header, the entry point and the loop.
unfoldable pub load_file : File → Option Ehdr → (ℕ → ℕ) → Option (ℕ × ℕ × (ℕ → ℕ))
load_file f none mem = none
load_file f (some eh) mem =
    let r = load_loop f eh eh.e_phnum 0 (0, mem) in
    if (is_elf eh && eh.e_ident 4 == 2) && eh.e_machine == em_riscv
    then some (entry_point eh, r.0, r.1)
    else none

-- The entry point, the segments that were loaded, and the RAM; `none` is -1, before any of it.
unfoldable pub load_elf64_sbi : Option File → (ℕ → ℕ) → Option (ℕ × ℕ × (ℕ → ℕ))
load_elf64_sbi none mem = none
load_elf64_sbi (some f) mem = load_file f f.header mem
