-- ===== src/Tests/Paging.antt =====
-- The page walk at concrete inputs, with tables in the RAM that map the page 0x1000 to 0x80000000.
use risc_v_emulator.Prelude.{ℕ, ◌*◌, ◌/◌, ◌^◌, ◌≡◌, ◌↔◌, refl, arith, some, [], bit}
use risc_v_emulator.Memory.{read_loop, ram_read}
use risc_v_emulator.Bus.{bus_read}
use risc_v_emulator.Mmu.Tlb.{load}
use risc_v_emulator.Mmu.Walk.{sv39_translate, visit, leaf_result}
use risc_v_emulator.Mmu.Rules.{Reaches, IsPermitted}
use risc_v_emulator.Mmu.Sv39.{ram_word, sv39_translate_iff, sv39_translate_page}
use risc_v_emulator.Tests.Board.{undef, ram_bus}
use risc_v_emulator.Tests.Tables.{tables, paged, paged-IsBytes, paged-AreInRam}

sv39_translate_iff_example :
    ((sv39_translate undef ram_bus 0x1678 load paged).0 ≡ some 0x80000678) ↔ (
      (j : ℕ) × (pte : ℕ) × Reaches (ram_word tables) 0x1678 2 (0x80001 * 2 ^ 12) j pte
      × IsPermitted paged.cpu 0x1678 load j pte 0x80000678)
sv39_translate_iff_example =
    sv39_translate_iff undef [] paged refl paged-IsBytes paged-AreInRam refl 0x1678 load 0x80000678

translates : (sv39_translate undef ram_bus 0x1678 load paged).0 ≡ some 0x80000678
unfolding sv39_translate visit bit bus_read ram_read read_loop leaf_result
translates = refl

sv39_translate_page_example :
    (pa' : ℕ) × ((sv39_translate undef ram_bus 0x1abc load paged).0 ≡ some pa')
    × (pa' / 2 ^ 12 ≡ 0x80000678 / 2 ^ 12)
sv39_translate_page_example =
    sv39_translate_page undef [] paged refl paged-IsBytes paged-AreInRam refl 0x1678 0x1abc load
      0x80000678 refl translates (omega arith)
