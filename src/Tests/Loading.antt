-- ===== src/Tests/Loading.antt =====
-- The loaders and the start at concrete inputs: a file with one segment of eight bytes and eight
-- zeros, as a kernel of 64 bits at 0x80000000 and as a program of 32 bits at 0x1000.
use risc_v_emulator.Prelude.{List, ◌∷◌}
use risc_v_emulator.Bus.Laws.{ram_region}
use risc_v_emulator.Bus.{bus_register_mmio}
use risc_v_emulator.Machine.{Region}
use risc_v_emulator.Prelude.{
  sym, update, ◌-◌, ◌^◌, ◌*◌, ◌/◌, ℕ, ◌+◌, ◌%◌, ◌≡◌, refl, arith, ap, ◌==◌, if◌then◌else◌, some,
  some-injective,
}
use risc_v_emulator.Elf.{File, Ehdr, Phdr, load_elf64_sbi}
use risc_v_emulator.Elf.Image.{
  IsSound, IsPlaced, ram_after, load_elf64_sbi_bounds, load_elf64_sbi_image,
}
use risc_v_emulator.Elf.Bare.{
  load_elf32_bare, scan_loop, scan_segment, load_file32, place_all, place_loop, place_segment,
}
use risc_v_emulator.Elf.Bare.Placed.{IsListed}
use risc_v_emulator.Elf.Bare.Image.{IsLeast, load_elf32_bare_image}
use risc_v_emulator.Main.{Handlers, boot, memory_map}
use risc_v_emulator.Main.Boot.{instruction_at, fetch_instruction-boot}
use risc_v_emulator.Main.Map.{routed_read, routed_write, memory_map-routed_read}
use risc_v_emulator.Decode.{fetch_instruction}
use risc_v_emulator.Bus.{bus_read, bus_write}
use risc_v_emulator.Tests.Board.{machine, hart, undef, ram_bus}

-- The magic number, the class and little-endian data.
abbrev ident : ℕ → ℕ → ℕ
ident class i =
    if i == 0
    then 0x7f
    else if i == 1
    then 0x45
    else if i == 2
    then 0x4c
    else if i == 3
    then 0x46
    else if i == 4
    then class
    else 1

abbrev header_of : ℕ → ℕ → Ehdr
header_of class entry = record {
  e_ident = ident class;
  e_type = 2;
  e_machine = 243;
  e_entry = entry;
  e_phoff = 64;
  e_phentsize = 56;
  e_phnum = 1;
}

abbrev segment : ℕ → Phdr
segment addr = record {
  p_type = 1;
  p_flags = 5;
  p_offset = 0x1000;
  p_vaddr = addr;
  p_paddr = addr;
  p_filesz = 8;
  p_memsz = 16;
}

abbrev file : ℕ → ℕ → File
file class addr = record {
  header = some (header_of class addr);
  phdr_at = λ o. some (segment addr);
  length = 0x1008;
  content = λ o. o % 256;
}

abbrev kernel : File
kernel = file 2 0x80000000

abbrev zeros : ℕ → ℕ
zeros i = 0

kernel-IsSound : IsSound kernel
unfolding IsSound
kernel-IsSound o ph e =
    let same : segment 0x80000000 ≡ ph = some-injective (segment 0x80000000) ph e in
    let at_addr = ap Phdr.p_vaddr same in
    let in_file = ap Phdr.p_filesz same in
    let in_memory = ap Phdr.p_memsz same in (omega arith, omega arith)

kernel-IsPlaced : IsPlaced kernel (header_of 2 0x80000000) 0 (segment 0x80000000)
kernel-IsPlaced = record {
  loaded = record { found = refl; taken = refl };
  numbered = omega arith;
  whole = omega arith;
  stays_clear = λ k j h lo hi. absurd (omega arith);
}

load_elf64_sbi_bounds_example : ram_after (load_elf64_sbi (some kernel) zeros) zeros 0x40000000 ≡ 0
load_elf64_sbi_bounds_example =
    load_elf64_sbi_bounds kernel zeros 0x40000000 kernel-IsSound (omega arith)

load_elf64_sbi_image_example : ram_after (load_elf64_sbi (some kernel) zeros) zeros (0 + 5) ≡ 5
load_elf64_sbi_image_example =
    load_elf64_sbi_image kernel (header_of 2 0x80000000) zeros 0 5 (segment 0x80000000) refl refl
      kernel-IsPlaced (omega arith)

fetch_instruction-boot_example :
    (fetch_instruction undef ram_bus (boot 0 (some kernel) 7)).0
    ≡ instruction_at (λ o. o % 256) 0x1000
fetch_instruction-boot_example =
    fetch_instruction-boot undef ram_bus kernel (header_of 2 0x80000000) 0 7 0 0
      (segment 0x80000000) refl refl (λ j. omega arith) kernel-IsPlaced (omega arith) (omega arith)
      (omega arith)

abbrev program : File
program = file 1 0x1000

program-listed :
    (l : ℕ) (ph : Phdr) → IsListed program (header_of 1 0x1000) l ph → ph.p_vaddr ≡ 0x1000
program-listed l ph h = sym (ap Phdr.p_vaddr (some-injective (segment 0x1000) ph h.found))

program-IsLeast : IsLeast program (header_of 1 0x1000) 0x1000
program-IsLeast = record {
  index = 0;
  header = segment 0x1000;
  among = omega arith;
  listed = record { found = refl; taken = refl };
  attained = refl;
  least = λ l ph h i. omega (arith, program-listed l ph i);
}

load_elf32_bare_image_example :
    ((load_elf32_bare (some program) 4096 0x80000000 (zeros, hart)).1 (0x1000 - 0x1000 + 5) ≡ 5)
    × ((load_elf32_bare (some program) 4096 0x80000000 (zeros, hart)).2 ≡ record hart {
      gpr = update hart.gpr 2 ((0x80000000 + 4096) / 16 * 16 % 2 ^ 32);
      pc = ((header_of 1 0x1000).e_entry + 0x80000000 + 2 ^ 32 - 0x1000) % 2 ^ 32;
    })
unfolding load_elf32_bare scan_loop scan_segment load_file32 place_all place_loop place_segment
load_elf32_bare_image_example =
    load_elf32_bare_image program (header_of 1 0x1000) 4096 0x80000000 0x1000 0 5 (segment 0x1000)
      zeros hart refl (omega arith) (λ l ph h. omega (arith, program-listed l ph h)) program-IsLeast
      (record { found = refl; taken = refl }) (omega arith) (omega arith)
      (λ l ph p q h. absurd (omega arith)) refl

-- A device that counts the accesses, and answers with the offset.
abbrev counter : Handlers ℕ
counter = record {
  on_read = λ off n m. (off, record m { dev = m.dev + 1 });
  on_write = λ off v n m. record m { dev = m.dev + 1 };
}

memory_map-routed_read_example :
    (bus_read undef (memory_map counter counter counter counter) 0x10000005 1 machine
      ≡ routed_read undef counter counter counter counter 0x10000005 1 machine)
    × (bus_write (memory_map counter counter counter counter) 0x10000005 7 1 machine
        ≡ routed_write counter counter counter counter 0x10000005 7 1 machine)
memory_map-routed_read_example =
    memory_map-routed_read undef counter counter counter counter 0x10000005 7 1 machine
      (omega arith) (omega arith)

-- The bus of `main` holds the RAM first.
ram_first :
    (uart plic disk clint : Handlers ℕ)
    → (rest : List (Region ℕ)) × (memory_map uart plic disk clint ≡ ram_region ∷ rest)
unfolding memory_map bus_register_mmio
ram_first uart plic disk clint = (_, refl)
