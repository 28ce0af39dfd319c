-- ===== src/Mmu/Sv39.antt =====
-- src/mmu.c: the walk and the buffer on the RAM of the bus of `main`, against the rules of Sv39.
use risc_v_emulator.Prelude.{
  ℕ, ◌+◌, ◌-◌, ◌*◌, ◌/◌, ◌%◌, ◌^◌, ◌<◌, ◌≤◌, ◌≡◌, ◌↔◌, arith, ◌∙◌, List, ◌∷◌, some,
}
use risc_v_emulator.Cpu.{Cpu, csr_satp}
use risc_v_emulator.Machine.{Machine, Region, Undefined, set_cpu, memory_base, memory_size}
use risc_v_emulator.Memory.Bytes.{number_at}
use risc_v_emulator.Memory.Laws.{IsBytes, ram_read_value}
use risc_v_emulator.Bus.{bus_read}
use risc_v_emulator.Bus.Laws.{ram_region, bus_read_ram}
use risc_v_emulator.Mmu.Tlb.{Access}
use risc_v_emulator.Mmu.Walk.{sv39_translate}
use risc_v_emulator.Mmu.Tables.{sv39_translate_cases}
use risc_v_emulator.Mmu.Pages.{pages_alike}
use risc_v_emulator.Mmu.Rules.{
  Reaches, IsPermitted, AreInRam, IsPermitted-iff, Leads-Reaches, Reaches-Leads, AreInRam-IsClosed,
}

-- The eight bytes of the RAM at an address, as a number.
abbrev pub ram_word : (ℕ → ℕ) → ℕ → ℕ
ram_word mem a = number_at mem (a - memory_base) 8

-- Where `satp` puts the first table.
abbrev pub root : Cpu → ℕ
root c = c.csr csr_satp % 2 ^ 44 * 2 ^ 12

module _ {D : Type 0} (undef : Undefined) (rest : List (Region D)) (m : Machine D)
    (mask : undef.ppn_mask ≡ 2 ^ 64 - 1) (bytes : IsBytes m)
    (tables : AreInRam (ram_word m.mem) 2 (root m.cpu))
    (sv39 : m.cpu.csr csr_satp / 2 ^ 60 ≡ 8) where
  reads :
      (a : ℕ) (c : Cpu)
      → memory_base ≤ a
      → a + 8 ≤ memory_base + memory_size
      → bus_read undef (ram_region ∷ rest) a 8 (set_cpu m c) ≡ (ram_word m.mem a, set_cpu m c)
  reads a c lo hi =
      bus_read_ram undef rest a 8 (set_cpu m c) lo (omega arith)
      ∙ ram_read_value (set_cpu m c) (a - memory_base) 8 bytes (omega arith) (omega arith)
          (omega arith)

  -- On a bus that holds the RAM first, in the mode Sv39 and with all tables in a RAM of bytes, the
  -- walk gives an address exactly where the entries in the RAM lead to a leaf that permits the access
  -- and that address is the leaf's: the page of the entry, whose reserved bits count, and the offset at
  -- level 0, and 0 at the levels of superpages. It lies below the end of the RAM, or is the last of
  -- 64 bits. The mask of the page number has all bits, as
  -- `(1 << 44) - 1` has where the shift of an `int` past its width gives 0.
  pub sv39_translate_iff :
      (va : ℕ) (acc : Access) (pa : ℕ)
      → ((sv39_translate undef (ram_region ∷ rest) va acc m).0 ≡ some pa) ↔ (
          (j : ℕ) × (pte : ℕ) × Reaches (ram_word m.mem) va 2 (root m.cpu) j pte
          × IsPermitted m.cpu va acc j pte pa)
  sv39_translate_iff va acc pa =
      let word = ram_word m.mem in
      let c : Cpu = record m.cpu { satp = m.cpu.csr csr_satp } in
      let cases =
        sv39_translate_cases undef (ram_region ∷ rest) m word mask reads va acc pa sv39
          (AreInRam-IsClosed word 2 (root m.cpu) tables) in
      (
        λ e.
            let (j, p, w, g) = cases.0 e in
            let h = (IsPermitted-iff c va acc j p pa).1 g in
            (
              j,
              p,
              Leads-Reaches word va w,
              record {
                mode = h.mode;
                kind = h.kind;
                aligned = h.aligned;
                place = h.place;
                passed = h.passed;
              },
            ),
        λ (j, p, w, g). cases.1 (
          j,
          p,
          Reaches-Leads word va w,
          (IsPermitted-iff c va acc j p pa).0 (record {
            mode = g.mode;
            kind = g.kind;
            aligned = g.aligned;
            place = g.place;
            passed = g.passed;
          }),
        ),
      )

  -- On a bus that holds the RAM first, in the mode Sv39 and with all tables in a RAM of bytes, two
  -- addresses of one page are translated for the same kinds of access, and to one page, where the
  -- first goes to an address before the end of the RAM. The mask of the page number has all bits.
  pub sv39_translate_page :
      (va va' : ℕ) (acc : Access) (pa : ℕ)
      → va / 2 ^ 12 ≡ va' / 2 ^ 12
      → (sv39_translate undef (ram_region ∷ rest) va acc m).0 ≡ some pa
      → pa < memory_base + memory_size
      → (pa' : ℕ) × ((sv39_translate undef (ram_region ∷ rest) va' acc m).0 ≡ some pa')
        × (pa' / 2 ^ 12 ≡ pa / 2 ^ 12)
  sv39_translate_page va va' acc pa =
      pages_alike undef (ram_region ∷ rest) m (ram_word m.mem) mask reads
        (AreInRam-IsClosed (ram_word m.mem) 2 (root m.cpu) tables) va va' acc pa sv39
