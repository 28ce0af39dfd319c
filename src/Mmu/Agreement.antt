-- ===== src/Mmu/Agreement.antt =====
-- src/mmu.c: over every translation the buffer stays in agreement with the page tables.
use risc_v_emulator.Prelude.{◌-◌}
use risc_v_emulator.Prelude.{
  ℕ, ◌*◌, ◌/◌, ◌^◌, ◌<◌, ◌≤◌, ◌+◌, ◌≡◌, refl, arith, ap, ◌∙◌, subst, Bool, true, false, ◌==◌,
  if◌then◌else◌, inl, inr, bits, List, Option, some, none,
}
use risc_v_emulator.Cpu.{Cpu, csr_satp}
use risc_v_emulator.Machine.{Machine, Region, Undefined, set_cpu, memory_base, memory_size}
use risc_v_emulator.Bus.{bus_read}
use risc_v_emulator.Mmu.Tlb.{Access, TlbResult, ok, miss, fault, tlb_size, tlb_insert, tlb_lookup}
use risc_v_emulator.Mmu.Walk.{
  leaf_result, walk, sv39_translate, handle_fault, after_walk, after_lookup, get_pa,
}
use risc_v_emulator.Mmu.Tables.{Leads, IsClosed}
use risc_v_emulator.Mmu.Effects.{Effect, walk-Effect, lookup_loop_cases}
use risc_v_emulator.Mmu.Coherent.{
  IsCoherent, root_of, same_buffer, tlb_hit-IsCoherent, tlb_insert-IsCoherent,
}

module _ {A : Type 0} where
  if_true : (b : Bool) (x y : A) → b ≡ true → (if b then x else y) ≡ x
  if_true b x y e = rw e refl

  if_false : (b : Bool) (x y : A) → b ≡ false → (if b then x else y) ≡ y
  if_false b x y e = rw e refl

module _ {D : Type 0} (undef : Undefined) (bus : List (Region D)) (m : Machine D) (word : ℕ → ℕ)
    (mask : undef.ppn_mask ≡ 2 ^ 64 - 1)
    (reads : (a : ℕ) (c : Cpu)
      → memory_base ≤ a
      → a + 8 ≤ memory_base + memory_size
      → bus_read undef bus a 8 (set_cpu m c) ≡ (word a, set_cpu m c))
    (closed : IsClosed word 2 (root_of m.cpu))
    (flat : (va j pte : ℕ)
      → va < 2 ^ 38
      → Leads word va 2 (root_of m.cpu) j pte
      → (j ≡ 0) × (pte < 2 ^ 54)) where
  -- The machine, but for what translations do to the hart, with a buffer that agrees with the tables.
  abbrev pub Agrees : Machine D → Type 0
  Agrees m' = (c : Cpu) × (m' ≡ set_cpu m c) × IsCoherent word (root_of m.cpu) m.cpu c

  Effect-Agrees :
      (va : ℕ) (acc : Access) (c : Cpu) (m' : Machine D)
      → va < 2 ^ 38
      → IsCoherent word (root_of m.cpu) m.cpu c
      → Effect undef bus m word mask reads va acc c 2 (root_of m.cpu) m'
      → Agrees m'
  unfolding Effect
  Effect-Agrees va acc c m' low h (inl e) = (c, e, h)
  Effect-Agrees va acc c m' low h (inr (j, pte, pa, w, g, e)) =
      let (level, clear) = flat va j pte low w in
      (
        tlb_insert c va pte c.asid,
        e,
        tlb_insert-IsCoherent word (root_of m.cpu) m.cpu undef mask c va pte pa acc low clear
            (subst (λ i. Leads word va 2 (root_of m.cpu) i pte) level w)
            (subst (λ i. (leaf_result undef c va acc i pte).0 ≡ some pa) level g) h,
      )

  -- In the mode Sv39 the translation is the walk from the root.
  pub sv39_translate_lem :
      (va : ℕ) (acc : Access) (c : Cpu)
      → m.cpu.csr csr_satp / 2 ^ 60 ≡ 8
      → c.csr csr_satp ≡ m.cpu.csr csr_satp
      → sv39_translate undef bus va acc (set_cpu m c)
        ≡ walk undef bus va acc 2 (root_of m.cpu) (set_cpu m (record c { satp = c.csr csr_satp }))
  unfolding sv39_translate
  sv39_translate_lem va acc c sv39 same =
      let c' : Cpu = record c { satp = c.csr csr_satp } in
      let on : c.csr csr_satp / 2 ^ 60 == 8 ≡ true = ground arith in
      let start : bits (c.csr csr_satp) 0 44 * 2 ^ 12 ≡ root_of m.cpu = ground arith in
      if_true _ _ _ on ∙ ap (λ (t : ℕ). walk undef bus va acc 2 t (set_cpu m c')) start

  sv39_translate-Agrees :
      (va : ℕ) (acc : Access) (c : Cpu)
      → va < 2 ^ 38
      → m.cpu.csr csr_satp / 2 ^ 60 ≡ 8
      → IsCoherent word (root_of m.cpu) m.cpu c
      → Agrees ((sv39_translate undef bus va acc (set_cpu m c)).1)
  sv39_translate-Agrees va acc c low sv39 h =
      let c' : Cpu = record c { satp = c.csr csr_satp } in
      let h' : IsCoherent word (root_of m.cpu) m.cpu c' =
        same_buffer word (root_of m.cpu) m.cpu c (c.csr csr_satp) c.mem_fault h in
      rw (sv39_translate_lem va acc c sv39 h.satp) (
        Effect-Agrees va acc c' _ low h'
          (walk-Effect undef bus m word mask reads va acc c' 2 (root_of m.cpu) closed))

  handle_fault-Agrees :
      (va : ℕ) (acc : Access) (m' : Machine D) → Agrees m' → Agrees (handle_fault m' va acc)
  unfolding handle_fault
  handle_fault-Agrees va acc m' (c, e, h) = (
    _,
    ap (λ (x : Machine D). handle_fault x va acc) e,
    same_buffer word (root_of m.cpu) m.cpu c c.satp _ h,
  )

  after_walk-Agrees :
      (va : ℕ) (acc : Access) (r : Option ℕ × Machine D)
      → Agrees r.1
      → Agrees ((after_walk va acc r).1)
  after_walk-Agrees va acc (some pa, m') h = h
  after_walk-Agrees va acc (none, m') h = handle_fault-Agrees va acc m' h

  after_lookup-Agrees :
      (va : ℕ) (acc : Access) (found : TlbResult) (m' : Machine D) (walked : ℕ × Machine D)
      → Agrees m'
      → Agrees walked.1
      → Agrees ((after_lookup va acc found m' walked).1)
  after_lookup-Agrees va acc (ok pa) m' walked h w = h
  after_lookup-Agrees va acc miss m' walked h w = w
  after_lookup-Agrees va acc fault m' walked h w = handle_fault-Agrees va acc m' h

  tlb_lookup-IsCoherent :
      (va : ℕ) (acc : Access) (c : Cpu)
      → IsCoherent word (root_of m.cpu) m.cpu c
      → IsCoherent word (root_of m.cpu) m.cpu ((tlb_lookup c va acc c.asid).1)
  unfolding tlb_lookup
  tlb_lookup-IsCoherent va acc c h = elim (lookup_loop_cases c va acc c.asid tlb_size 0) [
    | inl e ↦ rw e h
    | inr (k, l, hit, e) ↦
        rw e (tlb_hit-IsCoherent word (root_of m.cpu) m.cpu c va acc k (omega arith) h)
  ]

  -- In the mode Sv39 a translation looks in the buffer and walks after a miss.
  pub get_pa_lem :
      (va : ℕ) (acc : Access) (c : Cpu)
      → m.cpu.csr csr_satp / 2 ^ 60 ≡ 8
      → c.csr csr_satp ≡ m.cpu.csr csr_satp
      → let (found, c') = tlb_lookup c va acc c.asid in
        get_pa undef bus va acc (set_cpu m c)
        ≡ after_lookup va acc found
            (set_cpu m c')
            (after_walk va acc (sv39_translate undef bus va acc (set_cpu m c')))
  unfolding get_pa
  get_pa_lem va acc c sv39 same =
      let off : bits (c.csr csr_satp) 60 4 == 0 ≡ false = ground arith in if_false _ _ _ off

  -- A translation leaves the buffer in agreement with the tables.
  pub get_pa-Agrees :
      (va : ℕ) (acc : Access) (c : Cpu)
      → va < 2 ^ 38
      → m.cpu.csr csr_satp / 2 ^ 60 ≡ 8
      → IsCoherent word (root_of m.cpu) m.cpu c
      → Agrees ((get_pa undef bus va acc (set_cpu m c)).1)
  get_pa-Agrees va acc c low sv39 h =
      let (found, c') = tlb_lookup c va acc c.asid in
      let h' : IsCoherent word (root_of m.cpu) m.cpu c' = tlb_lookup-IsCoherent va acc c h in
      rw (get_pa_lem va acc c sv39 h.satp) (
        after_lookup-Agrees va acc found _ _ (c', refl, h')
          (after_walk-Agrees va acc _ (sv39_translate-Agrees va acc c' low sv39 h')))
