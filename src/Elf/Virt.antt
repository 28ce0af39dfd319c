-- ===== src/Elf/Virt.antt =====
-- src/elf_load.c: `load_elf32_virt`, which puts a program of 32 bits at its physical addresses. The
-- map of addresses that it asks for, `map_vaddr_to_paddr` of src/mmu.c, has an empty body.
use risc_v_emulator.Prelude.{
  ℕ, zero, suc, ◌+◌, ◌-◌, ◌%◌, ◌^◌, ◌≤◌, ◌<◌, ◌≡◌, refl, arith, ◌∙◌, Bool, ◌==◌, ◌&&◌, ◌||◌, not,
  ltb, leb, if◌then◌else◌, Bool-cases, inl, inr, Option, none, some,
}
use risc_v_emulator.Machine.{memory_base, memory_size}
use risc_v_emulator.Elf.{File, Ehdr, Phdr, em_riscv, pt_load, fread_into}
use risc_v_emulator.Elf.Bare.{header32_at}

-- `phys_addr < MEMORY_BASE || phys_addr + p_filesz >= MEMORY_BASE + MEMORY_SIZE`, in 32 bits.
abbrev pub is_outside : Phdr → Bool
is_outside ph =
    ltb ph.p_paddr memory_base
    || leb (memory_base + memory_size) ((ph.p_paddr + ph.p_filesz) % 2 ^ 32)

-- A round of the loop over the program headers.
unfoldable pub load_virt_segment : File → Option Phdr → (ℕ → ℕ) → ℕ → ℕ
load_virt_segment f none mem = mem
load_virt_segment f (some ph) mem =
    if ph.p_type == pt_load && not (is_outside ph)
    then fread_into f ph.p_offset ph.p_filesz (ph.p_paddr - memory_base) mem
    else mem

unfoldable pub load_virt_loop : File → Ehdr → ℕ → ℕ → (ℕ → ℕ) → ℕ → ℕ
load_virt_loop f eh zero i mem = mem
load_virt_loop f eh (suc left) i mem =
    load_virt_loop f eh left (i + 1) (load_virt_segment f (header32_at f eh i) mem)

-- The entry point, which stays as it is where the header is refused, and the RAM. `eh` is what
-- the function has for a header after its first read.
unfoldable pub load_elf32_virt : File → Ehdr → ℕ × (ℕ → ℕ) → ℕ × (ℕ → ℕ)
load_elf32_virt f eh (entry_point, mem) =
    let loaded = load_virt_loop f eh eh.e_phnum 0 mem in
    if eh.e_ident 0 == 0x7f && eh.e_machine == em_riscv
    then (eh.e_entry % 2 ^ 32, loaded)
    else (entry_point, mem)

load_virt_segment_bounds :
    (f : File) (o : Option Phdr) (mem : ℕ → ℕ) (a : ℕ)
    → ((ph : Phdr) → o ≡ some ph → ph.p_paddr + ph.p_filesz < 2 ^ 32)
    → memory_size ≤ a
    → load_virt_segment f o mem a ≡ mem a
unfolding load_virt_segment fread_into
load_virt_segment_bounds f none mem a s l = refl
load_virt_segment_bounds f (some ph) mem a s l = let q = s ph refl in ground (arith, q)

load_virt_loop_bounds :
    (f : File) (eh : Ehdr) (left i a : ℕ) (mem : ℕ → ℕ)
    → ((o : ℕ) (ph : Phdr) → f.phdr_at o ≡ some ph → ph.p_paddr + ph.p_filesz < 2 ^ 32)
    → memory_size ≤ a
    → load_virt_loop f eh left i mem a ≡ mem a
unfolding load_virt_loop
load_virt_loop_bounds f eh zero i a mem s l = refl
load_virt_loop_bounds f eh (suc left) i a mem s l =
    load_virt_loop_bounds f eh left (i + 1) a _ s l
    ∙ load_virt_segment_bounds f (header32_at f eh i) mem a (λ ph e. s _ ph e) l

-- The loader writes inside the RAM only, if no segment of the file goes past 2 ^ 32.
pub load_elf32_virt_bounds :
    (f : File) (eh : Ehdr) (entry_point a : ℕ) (mem : ℕ → ℕ)
    → ((o : ℕ) (ph : Phdr) → f.phdr_at o ≡ some ph → ph.p_paddr + ph.p_filesz < 2 ^ 32)
    → memory_size ≤ a
    → (load_elf32_virt f eh (entry_point, mem)).1 a ≡ mem a
unfolding load_elf32_virt
load_elf32_virt_bounds f eh entry_point a mem s l =
    let kept = load_virt_loop_bounds f eh eh.e_phnum 0 a mem s l in
    elim (Bool-cases (eh.e_ident 0 == 0x7f && eh.e_machine == em_riscv)) [
      | inl t ↦ rw t kept
      | inr t ↦ rw t refl
    ]
