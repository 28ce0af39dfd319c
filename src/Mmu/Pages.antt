-- ===== src/Mmu/Pages.antt =====
-- src/mmu.c, `sv39_translate`: a translation is one of whole pages.
use risc_v_emulator.Machine.{memory_base, memory_size}
use risc_v_emulator.Prelude.{◌≤◌, inl}
use native.Mathlib.Nat.{div-div-eq-div-mul, pow-suc}
use risc_v_emulator.Prelude.{
  ℕ, zero, suc, ◌<◌, ◌+◌, ◌-◌, ◌*◌, ◌/◌, ◌%◌, ◌^◌, ◌≡◌, refl, arith, ap, sym, subst, ◌∙◌, List,
  some,
}
use risc_v_emulator.Cpu.{Cpu, csr_satp}
use risc_v_emulator.Machine.{Machine, Region, Undefined, set_cpu}
use risc_v_emulator.Bus.{bus_read}
use risc_v_emulator.Mmu.Tlb.{Access}
use risc_v_emulator.Mmu.Walk.{pte_is_valid, pte_is_leaf, sv39_translate}
use risc_v_emulator.Mmu.Tables.{
  IsClosed, entry, table_of, frame, Leads, leaf, pointer, sv39_translate_cases,
}

pow_page : (n : ℕ) → 2 ^ (12 + n) ≡ 2 ^ 12 * 2 ^ n
pow_page zero = refl
pow_page (suc n) =
    let next : 12 + suc n ≡ suc (12 + n) = omega arith in
    rw next (omega (arith, pow_page n, pow-suc 2 (12 + n), pow-suc 2 n))

same_entry :
    (word : ℕ → ℕ) (va va' i t : ℕ)
    → va / 2 ^ 12 ≡ va' / 2 ^ 12
    → entry word va i t ≡ entry word va' i t
same_entry word va va' i t e =
    let part = λ (a : ℕ). div-div-eq-div-mul a (2 ^ 12) (2 ^ (9 * i)) in
    let high : va / 2 ^ (12 + 9 * i) ≡ va' / 2 ^ (12 + 9 * i) =
      ap (λ (d : ℕ). va / d) (pow_page (9 * i))
      ∙ sym (part va)
      ∙ ap (λ (x : ℕ). x / 2 ^ (9 * i)) e
      ∙ part va'
      ∙ ap (λ (d : ℕ). va' / d) (sym (pow_page (9 * i))) in
    ap (λ x. word (t + x % 512 * 8)) high

pub Leads-page :
    (word : ℕ → ℕ) (va va' : ℕ) {i t j pte : ℕ}
    → va / 2 ^ 12 ≡ va' / 2 ^ 12
    → Leads word va i t j pte
    → Leads word va' i t j pte
Leads-page word va va' e (leaf i t v l) =
    let same = same_entry word va va' i t e in
    subst (λ p. Leads word va' i t i p) (sym same)
      (leaf i t (ap pte_is_valid (sym same) ∙ v) (ap pte_is_leaf (sym same) ∙ l))
Leads-page word va va' e (pointer i t j pte v l w) =
    let same = same_entry word va va' (suc i) t e in
    pointer i t j pte (ap pte_is_valid (sym same) ∙ v) (ap pte_is_leaf (sym same) ∙ l)
      (subst (λ p. Leads word va' i (table_of p) j pte) same (Leads-page word va va' e w))

frame_page : (va va' pte j : ℕ) → frame va pte j / 2 ^ 12 ≡ frame va' pte j / 2 ^ 12
frame_page va va' pte zero = omega arith
frame_page va va' pte (suc j) = refl

pub pages_alike :
    {D : Type 0} (undef : Undefined) (bus : List (Region D)) (m : Machine D) (word : ℕ → ℕ)
    → undef.ppn_mask ≡ 2 ^ 64 - 1
    → ((a : ℕ) (c : Cpu)
        → memory_base ≤ a
        → a + 8 ≤ memory_base + memory_size
        → bus_read undef bus a 8 (set_cpu m c) ≡ (word a, set_cpu m c))
    → IsClosed word 2 (m.cpu.csr csr_satp % 2 ^ 44 * 2 ^ 12)
    → (va va' : ℕ) (acc : Access) (pa : ℕ) → m.cpu.csr csr_satp / 2 ^ 60 ≡ 8
    → va / 2 ^ 12 ≡ va' / 2 ^ 12
    → (sv39_translate undef bus va acc m).0 ≡ some pa
    → pa < memory_base + memory_size
    → (pa' : ℕ) × ((sv39_translate undef bus va' acc m).0 ≡ some pa') × (pa' / 2 ^ 12 ≡ pa / 2 ^ 12)
pages_alike undef bus m word mask reads closed va va' acc pa mode e found inside =
    let (j, p, w, g) =
      (sv39_translate_cases undef bus m word mask reads va acc pa mode closed).0 found in
    let pa' = frame va' p j in
    let page : pa' / 2 ^ 12 ≡ pa / 2 ^ 12 =
      frame_page va' va p j ∙ ap (λ (x : ℕ). x / 2 ^ 12) (sym g.place) in
    (
      pa',
      (sv39_translate_cases undef bus m word mask reads va' acc pa' mode closed).1 (
        j,
        p,
        Leads-page word va va' e w,
        record {
          mode = g.mode;
          kind = g.kind;
          aligned = g.aligned;
          place = refl;
          passed = inl (omega (arith, page, inside));
        },
      ),
      page,
    )
