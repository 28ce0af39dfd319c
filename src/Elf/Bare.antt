-- ===== src/Elf/Bare.antt =====
-- src/elf_load.c: `load_elf32_bare`, which puts a program of 32 bits at the start of a memory.
pub mod Bounds
pub mod Placed
pub mod Image
use risc_v_emulator.Prelude.{
  ℕ, zero, suc, ◌+◌, ◌-◌, ◌*◌, ◌%◌, ◌^◌, Bool, true, false, ◌==◌, ◌&&◌, ◌||◌, not, ltb,
  if◌then◌else◌, Option, none, some, ◌>>=◌, add64, sub64, update,
}
use risc_v_emulator.Cpu.{Cpu, put_gpr}
use risc_v_emulator.Elf.{File, Ehdr, Phdr, is_elf, em_riscv, pt_load, fread_into, put_segment}

-- The checks before the program headers are read.
abbrev pub is_accepted32 : Ehdr → Bool
is_accepted32 eh =
    (((is_elf eh && eh.e_ident 4 == 1) && eh.e_ident 5 == 1) && eh.e_machine == em_riscv)
    && not (eh.e_phoff == 0 || eh.e_phnum == 0)

abbrev pub header32_at : File → Ehdr → ℕ → Option Phdr
header32_at f eh i = f.phdr_at ((eh.e_phoff + i * eh.e_phentsize) % 2 ^ 32)

abbrev pub seg_end : Phdr → ℕ
seg_end ph = (ph.p_vaddr + ph.p_memsz) % 2 ^ 32

-- A round of the first loop, over `min_vaddr` and `max_vaddr`.
unfoldable pub scan_segment : Option Phdr → ℕ × ℕ → Option (ℕ × ℕ)
scan_segment none r = none
scan_segment (some ph) (min_vaddr, max_vaddr) =
    if ph.p_type == pt_load
    then some (
      (if ltb ph.p_vaddr min_vaddr then ph.p_vaddr else min_vaddr),
      (if ltb max_vaddr (seg_end ph) then seg_end ph else max_vaddr),
    )
    else some (min_vaddr, max_vaddr)

unfoldable pub scan_loop : File → Ehdr → ℕ → ℕ → ℕ × ℕ → Option (ℕ × ℕ)
scan_loop f eh zero i r = some r
scan_loop f eh (suc left) i r = do
  s ← scan_segment (header32_at f eh i) r
  scan_loop f eh left (i + 1) s

-- `dest`, where `bias` is `load_bias`.
abbrev pub dest_of : ℕ → Phdr → ℕ
dest_of bias ph = add64 ph.p_vaddr bias

abbrev pub does_not_fit : ℕ → ℕ → ℕ → Phdr → Bool
does_not_fit mem_size mem_base dest ph =
    ltb dest mem_base || ltb (add64 mem_base mem_size) (add64 dest ph.p_memsz)

-- The file ends before the bytes of the segment do.
abbrev pub is_short : File → Phdr → Bool
is_short f ph = ltb (f.length - ph.p_offset) ph.p_filesz

-- A round of the second loop: whether it goes on, and the memory.
unfoldable pub place_segment : File → ℕ → ℕ → ℕ → Option Phdr → (ℕ → ℕ) → Bool × (ℕ → ℕ)
place_segment f mem_size mem_base bias none mem = (false, mem)
place_segment f mem_size mem_base bias (some ph) mem =
    let dest = dest_of bias ph in
    let mem_off = dest - mem_base in
    if not (ph.p_type == pt_load)
    then (true, mem)
    else if does_not_fit mem_size mem_base dest ph
    then (false, mem)
    else if is_short f ph
    then (false, fread_into f ph.p_offset ph.p_filesz mem_off mem)
    else (true, put_segment f mem_off ph mem)

unfoldable pub place_loop : File → Ehdr → ℕ → ℕ → ℕ → ℕ → ℕ → (ℕ → ℕ) → Bool × (ℕ → ℕ)
place_loop f eh mem_size mem_base bias zero i mem = (true, mem)
place_loop f eh mem_size mem_base bias (suc left) i mem =
    let r = place_segment f mem_size mem_base bias (header32_at f eh i) mem in
    let rest = place_loop f eh mem_size mem_base bias left (i + 1) (r.1) in if r.0 then rest else r

-- The program counter and the stack pointer of the loaded program.
abbrev pub set_start : Ehdr → ℕ → ℕ → ℕ → Cpu → Cpu
set_start eh mem_size mem_base bias c =
    let sp = add64 mem_base mem_size in
    let started = put_gpr c 2 ((sp - sp % 16) % 2 ^ 32) in
    record started { pc = add64 eh.e_entry bias % 2 ^ 32 }

-- The rest of the function after the first loop.
unfoldable pub place_all :
    File → Ehdr → ℕ → ℕ → Option (ℕ × ℕ) → (ℕ → ℕ) × Cpu → Bool × (ℕ → ℕ) × Cpu
place_all f eh mem_size mem_base none (mem, c) = (false, mem, c)
place_all f eh mem_size mem_base (some (min_vaddr, max_vaddr)) (mem, c) =
    let bias = sub64 mem_base min_vaddr in
    let r = place_loop f eh mem_size mem_base bias eh.e_phnum 0 mem in
    if min_vaddr == 2 ^ 32 - 1 || ltb mem_size (sub64 max_vaddr min_vaddr)
    then (false, mem, c)
    else (r.0, r.1, (if r.0 then set_start eh mem_size mem_base bias c else c))

unfoldable pub load_file32 : File → Option Ehdr → ℕ → ℕ → (ℕ → ℕ) × Cpu → Bool × (ℕ → ℕ) × Cpu
load_file32 f none mem_size mem_base (mem, c) = (false, mem, c)
load_file32 f (some eh) mem_size mem_base (mem, c) =
    let r =
      place_all f eh mem_size mem_base (scan_loop f eh eh.e_phnum 0 (2 ^ 32 - 1, 0)) (mem, c) in
    if is_accepted32 eh then r else (false, mem, c)

-- Whether the function returns 0, the memory and the hart.
unfoldable pub load_elf32_bare : Option File → ℕ → ℕ → (ℕ → ℕ) × Cpu → Bool × (ℕ → ℕ) × Cpu
load_elf32_bare none mem_size mem_base (mem, c) = (false, mem, c)
load_elf32_bare (some f) mem_size mem_base (mem, c) =
    load_file32 f f.header mem_size mem_base (mem, c)
