-- ===== src/Main/Boot.antt =====
-- src/main.c: the first instruction after the start.
use risc_v_emulator.Prelude.{
  ℕ, zero, suc, ◌+◌, ◌-◌, ◌*◌, ◌%◌, ◌^◌, ◌≤◌, ◌<◌, ◌≡◌, refl, arith, ap, sym, ◌∙◌, true, false,
  ◌==◌, ltb, leb, if◌then◌else◌, some, List, add64, bits, bit_or, u16,
}
use risc_v_emulator.Prelude.Bits.{bit_or_fields}
use risc_v_emulator.Cpu.{csr_satp}
use risc_v_emulator.Machine.{Machine, Region, Undefined, memory_base, memory_size}
use risc_v_emulator.Memory.{memory_read, read_loop}
use risc_v_emulator.Memory.Bytes.{number_at, read_loop-number_at, number_at-lt}
use risc_v_emulator.Mmu.Walk.{get_pa}
use risc_v_emulator.Mmu.Tlb.{fetch}
use risc_v_emulator.Elf.{
  File, Ehdr, Phdr, load_elf64_sbi, load_file, load_loop, entry_point, phys_addr,
}
use risc_v_emulator.Elf.Segment.{load_loop_bytes}
use risc_v_emulator.Elf.Image.{is_accepted, IsPlaced, load_elf64_sbi_image, ram_of_file, ram_after}
use risc_v_emulator.Mmu.Tlb.{tlb_flush}
use risc_v_emulator.Main.{cpu_init, loaded_kernel, start_at, boot}
use risc_v_emulator.Decode.{fetch_instruction}

-- The instruction word at an address of an array: four bytes where the low two bits ask for it.
abbrev pub instruction_at : (ℕ → ℕ) → ℕ → ℕ
instruction_at mem off =
    if number_at mem off 2 % 4 == 3 then number_at mem off 4 else number_at mem off 2

two_halves :
    (mem : ℕ → ℕ) (off : ℕ)
    → number_at mem off 4 ≡ number_at mem (off + 2) 2 * 2 ^ 16 + number_at mem off 2
two_halves mem off =
    let next : off + 1 + 1 ≡ off + 2 = omega arith in
    ground (arith, ap mem next, ap (λ a. mem (a + 1)) next)

module _ {D : Type 0} where
  half_word :
      (m : Machine D) (addr : ℕ)
      → ((j : ℕ) → m.mem j < 256)
      → memory_base ≤ addr
      → addr + 2 ≤ memory_base + memory_size
      → memory_read addr 2 m ≡ (number_at m.mem (addr - memory_base) 2, m)
  unfolding memory_read
  half_word m addr b l h =
      let off = addr - memory_base in
      let value : read_loop m.mem off 2 0 0 ≡ number_at m.mem off 2 =
        ground (arith, read_loop-number_at m.mem off 2 0 0 b) in
      let in_ram : (ltb memory_size (add64 off 2)) ≡ false = ground arith in
      let above : leb memory_base addr ≡ true = ground arith in rw (above, in_ram, value) refl

  word_of_halves :
      (low high : ℕ) (m : Machine D)
      → low < 2 ^ 16
      → high < 2 ^ 16
      → (if◌then◌else◌ {A = ℕ × Machine D}
          (u16 low % 4 == 3)
          (bit_or (u16 high * 2 ^ 16) (u16 low), m)
          (u16 low, m)).0
        ≡ (if low % 4 == 3 then high * 2 ^ 16 + low else low)
  word_of_halves low high m l h = ground (arith, bit_or_fields 16 high low)

  untranslated :
      (undef : Undefined) (bus : List (Region D)) (m : Machine D) (va : ℕ)
      → bits (m.cpu.csr csr_satp) 60 4 ≡ 0
      → get_pa undef bus va fetch m ≡ (va, m)
  unfolding get_pa
  untranslated undef bus m va e = rw e refl

  -- Without translation the fetch gives the word in RAM.
  fetched :
      (undef : Undefined) (bus : List (Region D)) (m : Machine D)
      → ((j : ℕ) → m.mem j < 256)
      → bits (m.cpu.csr csr_satp) 60 4 ≡ 0
      → memory_base ≤ m.cpu.pc
      → m.cpu.pc + 4 ≤ memory_base + memory_size
      → (fetch_instruction undef bus m).0 ≡ instruction_at m.mem (m.cpu.pc - memory_base)
  unfolding fetch_instruction
  fetched undef bus m b e l h =
      let off = m.cpu.pc - memory_base in
      let next : add64 m.cpu.pc 2 ≡ m.cpu.pc + 2 = ground arith in
      let low = half_word m m.cpu.pc b l (omega arith) in
      let high = half_word m (m.cpu.pc + 2) b (omega arith) (omega arith) in
      let at_high : m.cpu.pc + 2 - memory_base ≡ off + 2 = omega arith in
      let low_fits = number_at-lt m.mem off 2 b in
      let high_fits = number_at-lt m.mem (off + 2) 2 b in
      rw (untranslated undef bus m m.cpu.pc e, low, next, high, at_high)
        (word_of_halves (number_at m.mem off 2) (number_at m.mem (off + 2) 2) m low_fits high_fits
          ∙ ap (λ w. if number_at m.mem off 2 % 4 == 3 then w else number_at m.mem off 2)
              (sym (two_halves m.mem off)))

number_at_moved :
    (f g : ℕ → ℕ) (off o n : ℕ)
    → ((k : ℕ) → k < n → f (off + k) ≡ g (o + k))
    → number_at f off n ≡ number_at g o n
number_at_moved f g off o zero h = refl
number_at_moved f g off o (suc n) h =
    let first : f (off + 0) ≡ g (o + 0) = h 0 (omega arith) in
    let here : off + 0 ≡ off = omega arith in
    let there : o + 0 ≡ o = omega arith in
    let rest =
      number_at_moved f g (off + 1) (o + 1) n
        (λ k p. ap f (shift off k) ∙ h (k + 1) (omega arith) ∙ ap g (sym (shift o k))) in
    rw (sym here, sym there, first) (ap (λ w. g (o + 0) + 256 * w) (rw (here, there) rest))
  where
    shift : (a k : ℕ) → a + 1 + k ≡ a + (k + 1)
    shift a k = omega arith

-- An instruction word whose four bytes are those of another array.
instruction_at_moved :
    (f g : ℕ → ℕ) (off o : ℕ)
    → ((k : ℕ) → k < 4 → f (off + k) ≡ g (o + k))
    → instruction_at f off ≡ instruction_at g o
instruction_at_moved f g off o h =
    let two = number_at_moved f g off o 2 (λ k p. h k (omega arith)) in
    let four = number_at_moved f g off o 4 h in
    ap (λ w. if w % 4 == 3 then number_at f off 4 else w) two
    ∙ ap (λ w. if number_at g o 2 % 4 == 3 then w else number_at g o 2) four

loaded_kernel_lem :
    (f : File) (eh : Ehdr) (unset : ℕ)
    → is_accepted eh ≡ true
    → loaded_kernel unset (load_file f (some eh) (λ i. 0))
      ≡ (entry_point eh, (load_loop f eh eh.e_phnum 0 (0, λ i. 0)).1)
unfolding loaded_kernel load_file
loaded_kernel_lem f eh unset t = rw t refl

-- A byte of the file that the loop has put into the RAM.
placed_byte :
    (f : File) (eh : Ehdr) (i k a b : ℕ) (ph : Phdr)
    → f.header ≡ some eh
    → is_accepted eh ≡ true
    → IsPlaced f eh i ph
    → k < ph.p_filesz
    → a ≡ phys_addr eh ph - memory_base + k
    → b ≡ ph.p_offset + k
    → (load_loop f eh eh.e_phnum 0 (0, λ j. 0)).1 a ≡ f.content b
unfolding load_elf64_sbi
placed_byte f eh i k a b ph e t p h at_a at_b =
    let zeros : ℕ → ℕ = λ j. 0 in
    let place = phys_addr eh ph - memory_base + k in
    let in_file : ltb k ph.p_filesz ≡ true = ground arith in
    let image = load_elf64_sbi_image f eh zeros i k ph e t p (ground arith) in
    ap (load_loop f eh eh.e_phnum 0 (0, zeros)).1 at_a
    ∙ sym (ap (λ (m : ℕ → ℕ). m place) (ram_of_file f eh zeros t))
    ∙ sym (ap (λ o. ram_after (load_file f o zeros) zeros place) e)
    ∙ image
    ∙ rw (in_file, at_b) refl

-- The address that the loader returns, in the memory.
entry_point_lem :
    (eh : Ehdr) (ph : Phdr) (k : ℕ)
    → eh.e_entry ≡ ph.p_vaddr + k
    → (if eh.e_type == 3 then 0x80000000 else 0) + eh.e_entry + 4 ≤ memory_base + memory_size
    → (entry_point eh ≡ phys_addr eh ph + k) × (entry_point eh + 4 ≤ memory_base + memory_size)
entry_point_lem eh ph k e h = (ground arith, ground arith)

module _ {D : Type 0} where
  -- The machine after the start with a file that the loader accepts.
  booted :
      (f : File) (eh : Ehdr) (unset : ℕ) (dev : D)
      → f.header ≡ some eh
      → is_accepted eh ≡ true
      → boot unset (some f) dev
        ≡ start_at dev (entry_point eh, (load_loop f eh eh.e_phnum 0 (0, λ i. 0)).1)
  unfolding boot load_elf64_sbi
  booted f eh unset dev e t =
      ap (λ o. start_at dev (loaded_kernel unset (load_file f o (λ i. 0)))) e
      ∙ ap (start_at dev) (loaded_kernel_lem f eh unset t)

  -- The first fetch after the start with a file that the loader accepts gives the instruction that
  -- the file has for its e_entry. That address lies in a segment that is in range, whole in the file
  -- and not overlapped by a later one, four bytes or more before the end of the segment's part of the
  -- file, and, moved by 0x80000000 in a file of type 3, before the end of the RAM.
  pub fetch_instruction-boot :
      (undef : Undefined) (bus : List (Region D)) (f : File) (eh : Ehdr) (unset : ℕ) (dev : D)
      (i k : ℕ) (ph : Phdr)
      → f.header ≡ some eh
      → is_accepted eh ≡ true
      → ((j : ℕ) → f.content j < 256)
      → IsPlaced f eh i ph
      → k + 4 ≤ ph.p_filesz
      → eh.e_entry ≡ ph.p_vaddr + k
      → (if eh.e_type == 3 then 0x80000000 else 0) + eh.e_entry + 4 ≤ memory_base + memory_size
      → (fetch_instruction undef bus (boot unset (some f) dev)).0
        ≡ instruction_at f.content (ph.p_offset + k)
  unfolding cpu_init tlb_flush load_elf64_sbi
  fetch_instruction-boot undef bus f eh unset dev i k ph e t c p h at_file in_ram =
      let (at_entry, fits) = entry_point_lem eh ph k at_file in_ram in
      let mem = (load_loop f eh eh.e_phnum 0 (0, λ j. 0)).1 in
      let taken = p.loaded.taken in
      let above : memory_base ≤ phys_addr eh ph = ground arith in
      let off : entry_point eh - memory_base ≡ phys_addr eh ph - memory_base + k = omega arith in
      let byte : (l : ℕ)
          → l < 4
          → mem (phys_addr eh ph - memory_base + k + l) ≡ f.content (ph.p_offset + k + l) =
        λ l q. placed_byte f eh i (k + l) _ _ ph e t p (omega arith) (omega arith) (omega arith) in
      ap (λ m. (fetch_instruction undef bus m).0) (booted f eh unset dev e t)
      ∙ fetched undef bus _
          (λ a. load_loop_bytes f eh eh.e_phnum 0 (0, λ j. 0) c (λ j. omega arith) a) refl
          (omega arith) fits
      ∙ ap (instruction_at mem) off
      ∙ instruction_at_moved mem f.content (phys_addr eh ph - memory_base + k) (ph.p_offset + k)
          byte
