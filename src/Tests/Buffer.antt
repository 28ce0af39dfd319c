-- ===== src/Tests/Buffer.antt =====
-- Translations through the buffer at concrete inputs, with tables in the RAM.
use risc_v_emulator.Prelude.{ℕ, ◌≡◌, refl, List, [], ◌∷◌, bit, set_bit}
use risc_v_emulator.Machine.{set_cpu}
use risc_v_emulator.Memory.{read_loop, ram_read}
use risc_v_emulator.Bus.{bus_read}
use risc_v_emulator.Mmu.Tlb.{
  Access, load, store, tlb_flush, tlb_lookup, lookup_loop, matches, tlb_insert, victim, new_entry,
  tlb_hit,
}
use risc_v_emulator.Mmu.Walk.{get_pa, sv39_translate, visit, leaf_result}
use risc_v_emulator.Mmu.Transparent.{translations}
use risc_v_emulator.Tests.Board.{undef, ram_bus}
use risc_v_emulator.Tests.Tables.{paged}

-- Two loads from the page, a store to it, and a load from a page that is not mapped.
abbrev accesses : List (ℕ × Access)
accesses = (0x1678, load) ∷ (0x1abc, load) ∷ (0x1abc, store) ∷ (0x2000, load) ∷ []

-- What these translations give.
the_addresses :
    translations undef ram_bus accesses (set_cpu paged (tlb_flush paged.cpu))
    ≡ 0x80000678 ∷ 0x80000abc ∷ 0x80000abc ∷ 0 ∷ []
unfolding get_pa tlb_flush tlb_lookup lookup_loop matches sv39_translate visit bit bus_read ram_read
    read_loop leaf_result tlb_insert victim new_entry tlb_hit set_bit
the_addresses = refl
