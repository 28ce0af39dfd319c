-- ===== src/Elf/Image.antt =====
-- src/elf_load.c, `load_elf64_SBI`: what the RAM holds afterwards.
use risc_v_emulator.Prelude.{
  ℕ, suc, ◌+◌, ◌-◌, ◌^◌, ◌≤◌, ◌<◌, ◌≡◌, inl, inr, refl, arith, ap, ◌∙◌, Bool, true, ◌==◌, ◌&&◌, ltb,
  if◌then◌else◌, Bool-cases, Option, none, some,
}
use risc_v_emulator.Machine.{memory_base, memory_size}
use risc_v_emulator.Elf.{
  File, Ehdr, Phdr, phys_addr, load_segment, load_loop, header_at, load_file, load_elf64_sbi,
  is_elf, em_riscv,
}
use risc_v_emulator.Elf.Segment.{
  extent, put_segment_inside, IsLoaded, Avoids, load_loop-Avoids, load_loop_split,
}

-- The RAM that the loader leaves.
unfoldable pub ram_after : Option (ℕ × ℕ × (ℕ → ℕ)) → (ℕ → ℕ) → ℕ → ℕ
ram_after none mem = mem
ram_after (some r) mem = r.2

-- The file is a RISC-V ELF file of 64 bits.
abbrev pub is_accepted : Ehdr → Bool
is_accepted eh = (is_elf eh && eh.e_ident 4 == 2) && eh.e_machine == em_riscv

pub ram_of_file :
    (f : File) (eh : Ehdr) (mem : ℕ → ℕ)
    → is_accepted eh ≡ true
    → ram_after (load_file f (some eh) mem) mem ≡ (load_loop f eh eh.e_phnum 0 (0, mem)).1
unfolding ram_after load_file
ram_of_file f eh mem t = rw t refl

-- Segments of a sound file take as much memory as they have bytes, and end below 2 ^ 64.
unfoldable pub IsSound : File → Type 0
IsSound f =
    (o : ℕ) (ph : Phdr)
    → f.phdr_at o ≡ some ph
    → (ph.p_filesz ≤ ph.p_memsz) × (ph.p_vaddr + 0x80000000 + ph.p_memsz < 2 ^ 64)

sound_Avoids : (f : File) (eh : Ehdr) (a j : ℕ) → IsSound f → memory_size ≤ a → Avoids f eh a j
unfolding IsSound Avoids
sound_Avoids f eh a j s l ph h = let q = s _ ph h.found in inr (ground (arith, q, h.taken))

bounds_of_file :
    (f : File) (o : Option Ehdr) (mem : ℕ → ℕ) (a : ℕ)
    → IsSound f
    → memory_size ≤ a
    → ram_after (load_file f o mem) mem a ≡ mem a
unfolding ram_after load_file
bounds_of_file f none mem a s l = refl
bounds_of_file f (some eh) mem a s l =
    let kept =
      load_loop-Avoids f eh a eh.e_phnum 0 (0, mem) (λ j lo hi. sound_Avoids f eh a j s l) in
    elim (Bool-cases (is_accepted eh)) [ inl t ↦ rw t kept | inr t ↦ rw t refl ]

-- Of a sound file the loader writes inside the RAM only, whatever the file holds: no segment takes
-- more bytes from the file than it has in memory, and each ends below 2 ^ 64.
pub load_elf64_sbi_bounds :
    (f : File) (mem : ℕ → ℕ) (a : ℕ)
    → IsSound f
    → memory_size ≤ a
    → ram_after (load_elf64_sbi (some f) mem) mem a ≡ mem a
unfolding load_elf64_sbi
load_elf64_sbi_bounds f mem a s l = bounds_of_file f f.header mem a s l

-- The segment `ph` of the header `i` is there whole, and those after it stay clear of its bytes.
pub record IsPlaced (f : File) (eh : Ehdr) (i : ℕ) (ph : Phdr) : Type 0 where
  pub loaded : IsLoaded f eh i ph
  pub numbered : i < eh.e_phnum
  pub whole : ph.p_offset + ph.p_filesz ≤ f.length
  pub stays_clear :
      (k j : ℕ)
      → k < extent ph
      → i < j
      → j < eh.e_phnum
      → Avoids f eh (phys_addr eh ph - memory_base + k) j

loaded_byte :
    (f : File) (eh : Ehdr) (i k n : ℕ) (ph : Phdr) (mem : ℕ → ℕ)
    → IsLoaded f eh i ph
    → ph.p_offset + ph.p_filesz ≤ f.length
    → k < extent ph
    → (load_segment f eh (header_at f eh i) (n, mem)).1 (phys_addr eh ph - memory_base + k)
      ≡ (if ltb k ph.p_filesz then f.content (ph.p_offset + k) else 0)
unfolding load_segment
loaded_byte f eh i k n ph mem l w h =
    rw (l.found, l.taken)
      (put_segment_inside f (phys_addr eh ph - memory_base) ph mem k (omega arith) h)

-- After the loader has accepted a file, the RAM holds each of its segments at the place of the
-- segment: the bytes of the file, and zeros from there to the size in memory. So it is for every
-- segment that is in range and whole in the file and that no later one overlaps.
pub load_elf64_sbi_image :
    (f : File) (eh : Ehdr) (mem : ℕ → ℕ) (i k : ℕ) (ph : Phdr)
    → f.header ≡ some eh
    → is_accepted eh ≡ true
    → IsPlaced f eh i ph
    → k < extent ph
    → ram_after (load_elf64_sbi (some f) mem) mem (phys_addr eh ph - memory_base + k)
      ≡ (if ltb k ph.p_filesz then f.content (ph.p_offset + k) else 0)
unfolding load_elf64_sbi load_loop
load_elf64_sbi_image f eh mem i k ph e t p h =
    let a = phys_addr eh ph - memory_base + k in
    let left = eh.e_phnum - i - 1 in
    let parts : eh.e_phnum ≡ i + suc left = omega (arith, p.numbered) in
    let before = load_loop f eh i 0 (0, mem) in
    let loop =
      ap (λ n. (load_loop f eh n 0 (0, mem)).1 a) parts
      ∙ ap (λ (st : ℕ × (ℕ → ℕ)). st.1 a) (load_loop_split f eh i (suc left) 0 (0, mem)) in
    let zero_on : 0 + i ≡ i = omega arith in
    ap (λ o. ram_after (load_file f o mem) mem a) e
    ∙ ap (λ (m : ℕ → ℕ). m a) (ram_of_file f eh mem t)
    ∙ loop
    ∙ ap (λ j. (load_loop f eh (suc left) j before).1 a) zero_on
    ∙ load_loop-Avoids f eh a left (i + 1) _
        (λ j lo hi. p.stays_clear k j h (omega arith) (omega (arith, p.numbered)))
    ∙ loaded_byte f eh i k (before.0) ph (before.1) p.loaded p.whole h
