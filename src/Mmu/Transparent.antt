-- ===== src/Mmu/Transparent.antt =====
-- src/mmu.c, `get_pa`: translations through the buffer against walks of the tables.
use risc_v_emulator.Machine.{memory_base, memory_size}
use risc_v_emulator.Prelude.{◌≤◌, ◌+◌}
use risc_v_emulator.Prelude.{
  ℕ, ◌-◌, ◌/◌, ◌^◌, ◌<◌, ◌≡◌, refl, arith, ap, ◌∙◌, true, ltb, List, [], ◌∷◌,
}
use risc_v_emulator.Cpu.{Cpu, csr_satp}
use risc_v_emulator.Machine.{Machine, Region, Undefined, set_cpu}
use risc_v_emulator.Bus.{bus_read}
use risc_v_emulator.Mmu.Tlb.{Access, tlb_size, tlb_flush}
use risc_v_emulator.Mmu.Walk.{sv39_translate, get_pa}
use risc_v_emulator.Mmu.Tables.{IsClosed, Leads}
use risc_v_emulator.Mmu.Backed.{invalid-IsBacked, checked_alike}
use risc_v_emulator.Mmu.Answers.{address, get_pa-walk}
use risc_v_emulator.Mmu.Coherent.{IsCoherent, root_of}
use risc_v_emulator.Mmu.Agreement.{get_pa-Agrees}

module _ {D : Type 0} (undef : Undefined) (bus : List (Region D)) where
  -- The addresses that translations one after the other give.
  abbrev pub translations : List (ℕ × Access) → Machine D → List ℕ
  translations [] m = []
  translations ((va, acc) ∷ rest) m =
      let (pa, m') = get_pa undef bus va acc m in pa ∷ translations rest m'

  -- The addresses that walks from a machine give, each on its own.
  abbrev pub walks : List (ℕ × Access) → Machine D → List ℕ
  walks [] m = []
  walks ((va, acc) ∷ rest) m = address (sv39_translate undef bus va acc m).0 ∷ walks rest m

-- Accesses below 2 ^ 38, without fetches in S mode under SUM.
abbrev pub AreChecked : Cpu → List (ℕ × Access) → Type 0
AreChecked c [] = Unit {0}
AreChecked c ((va, acc) ∷ rest) = (va < 2 ^ 38) × (checked_alike c acc ≡ true) × AreChecked c rest

tlb_flush-IsCoherent : (word : ℕ → ℕ) (root : ℕ) (c : Cpu) → IsCoherent word root c (tlb_flush c)
unfolding tlb_flush
tlb_flush-IsCoherent word root c = record {
  satp = refl;
  space = refl;
  mode = refl;
  execute_only = refl;
  user_pages = refl;
  entries = λ j k.
      let inside : ltb j tlb_size ≡ true = ground arith in
      invalid-IsBacked word root c.asid _ (rw inside refl);
}

module _ {D : Type 0} (undef : Undefined) (bus : List (Region D)) (m : Machine D) (word : ℕ → ℕ)
    (mask : undef.ppn_mask ≡ 2 ^ 64 - 1)
    (reads : (a : ℕ) (c : Cpu)
      → memory_base ≤ a
      → a + 8 ≤ memory_base + memory_size
      → bus_read undef bus a 8 (set_cpu m c) ≡ (word a, set_cpu m c))
    (closed : IsClosed word 2 (root_of m.cpu))
    (flat : (va j pte : ℕ)
      → va < 2 ^ 38
      → Leads word va 2 (root_of m.cpu) j pte
      → (j ≡ 0) × (pte < 2 ^ 54))
    (sv39 : m.cpu.csr csr_satp / 2 ^ 60 ≡ 8) where
  translations_agree :
      (accesses : List (ℕ × Access)) (c : Cpu)
      → AreChecked m.cpu accesses
      → IsCoherent word (root_of m.cpu) m.cpu c
      → translations undef bus accesses (set_cpu m c) ≡ walks undef bus accesses m
  translations_agree [] c checked h = refl
  translations_agree ((va, acc) ∷ rest) c (low, alike, others) h =
      let (c', e, h') = get_pa-Agrees undef bus m word mask reads closed flat va acc c low sv39 h in
      let walked = address (sv39_translate undef bus va acc m).0 in
      let m' = (get_pa undef bus va acc (set_cpu m c)).1 in
      ap (λ (pa : ℕ). pa ∷ translations undef bus rest m')
        (get_pa-walk undef bus m word mask reads closed flat sv39 va acc c low alike h)
      ∙ ap (λ (x : Machine D). walked ∷ translations undef bus rest x) e
      ∙ ap (λ (l : List ℕ). walked ∷ l) (translations_agree rest c' others h')

  pub translations_flushed :
      (accesses : List (ℕ × Access))
      → AreChecked m.cpu accesses
      → translations undef bus accesses (set_cpu m (tlb_flush m.cpu)) ≡ walks undef bus accesses m
  translations_flushed accesses checked =
      translations_agree accesses (tlb_flush m.cpu) checked
        (tlb_flush-IsCoherent word (root_of m.cpu) m.cpu)
