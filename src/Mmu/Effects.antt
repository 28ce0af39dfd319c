-- ===== src/Mmu/Effects.antt =====
-- src/mmu.c: what lookups and walks do to the hart.
use risc_v_emulator.Machine.{memory_base, memory_size}
use risc_v_emulator.Prelude.{◌≤◌}
use risc_v_emulator.Prelude.{
  ℕ, zero, suc, ◌+◌, ◌-◌, ◌*◌, ◌/◌, ◌%◌, ◌^◌, ◌<◌, ◌≡◌, ◌⊎◌, refl, arith, ap, true, false, ◌&&◌,
  not, if◌then◌else◌, Bool-cases, inl, inr, bits, add64, List, Option, some,
}
use risc_v_emulator.Cpu.{Cpu}
use risc_v_emulator.Machine.{Machine, Region, Undefined, set_cpu}
use risc_v_emulator.Bus.{bus_read}
use risc_v_emulator.Mmu.Tlb.{
  Access, miss, matches, vpn_of, tlb_hit, tlb_insert, lookup_loop, allows,
}
use risc_v_emulator.Mmu.Walk.{
  leaf_result, leaf_mode_allows, is_aligned, leaf_pa, phys_ok, pte_is_valid, pte_is_leaf, visit,
  walk,
}
use risc_v_emulator.Mmu.Tables.{
  IsInRam, IsClosed, IsClosed-entry, entry, table_of, Leads, leaf, pointer, masked,
}

-- A lookup misses, or hits at an entry that matches.
pub lookup_loop_cases :
    (c : Cpu) (va : ℕ) (acc : Access) (asid left i : ℕ)
    → (lookup_loop c va acc asid left i ≡ (miss, c))
      ⊎ ((k : ℕ) × (k < i + left)
          × (matches (c.tlb k) (vpn_of va) asid ≡ true)
          × (lookup_loop c va acc asid left i ≡ tlb_hit c va acc k))
unfolding lookup_loop
lookup_loop_cases c va acc asid zero i = inl refl
lookup_loop_cases c va acc asid (suc left) i =
    elim (Bool-cases (matches (c.tlb i) (vpn_of va) asid)) [
      | inl e ↦ inr (i, omega arith, e, rw e refl)
      | inr e ↦ elim (lookup_loop_cases c va acc asid left (i + 1)) [
        | inl n ↦ inl (rw e n)
        | inr (k, l, h, same) ↦ inr (k, omega arith, h, rw e same)
      ]
    ]

leaf_result_state :
    (undef : Undefined) (c : Cpu) (va : ℕ) (acc : Access) (j pte : ℕ)
    → ((leaf_result undef c va acc j pte).1 ≡ c)
      ⊎ ((pa : ℕ) × ((leaf_result undef c va acc j pte).0 ≡ some pa)
          × ((leaf_result undef c va acc j pte).1 ≡ tlb_insert c va pte c.asid))
unfolding leaf_result
leaf_result_state undef c va acc j pte =
    let pa = leaf_pa undef va pte j in
    elim (Bool-cases
      (((leaf_mode_allows c acc pte && allows c acc pte) && is_aligned j pte) && phys_ok pa 1)) [
        | inl e ↦ inr (pa, rw e refl, rw e refl)
        | inr e ↦ inl (rw e refl)
      ]

module _ {D : Type 0} (undef : Undefined) (bus : List (Region D)) (m : Machine D) (word : ℕ → ℕ)
    (mask : undef.ppn_mask ≡ 2 ^ 64 - 1)
    (reads : (a : ℕ) (c : Cpu)
      → memory_base ≤ a
      → a + 8 ≤ memory_base + memory_size
      → bus_read undef bus a 8 (set_cpu m c) ≡ (word a, set_cpu m c)) where
  visit_state :
      (va : ℕ) (acc : Access) (i t : ℕ) (d : ℕ → Machine D → Option ℕ × Machine D) (c : Cpu)
      → IsInRam t
      → let e = entry word va i t in
        (visit undef bus va acc i t d (set_cpu m c)).1 ≡ (
          if not (pte_is_valid e)
          then set_cpu m c
          else if pte_is_leaf e
          then set_cpu m ((leaf_result undef c va acc i e).1)
          else (d (table_of e) (set_cpu m c)).1)
  unfolding visit
  visit_state va acc i t d c (lo, hi) =
      let at : add64 (bits va (12 + 9 * i) 9 * 8) t ≡ t + va / 2 ^ (12 + 9 * i) % 512 * 8 =
        ground arith in
      let e = entry word va i t in
      rw
        (
          at,
          reads (t + va / 2 ^ (12 + 9 * i) % 512 * 8) c (omega arith) (omega arith),
          masked undef mask (e / 2 ^ 10),
        )
        (elim (Bool-cases (pte_is_valid e)) [
          | inr v ↦ rw v refl
          | inl v ↦ elim (Bool-cases (pte_is_leaf e)) [
            | inl l ↦ rw (v, l) refl
            | inr l ↦ rw (v, l) refl
          ]
        ])

  -- What a walk does to the hart: nothing, or the insertion of a leaf to which the tables lead.
  unfoldable pub Effect : ℕ → Access → Cpu → ℕ → ℕ → Machine D → Type 0
  Effect va acc c i t m' =
      (m' ≡ set_cpu m c)
      ⊎ ((j : ℕ) × (pte : ℕ) × (pa : ℕ) × Leads word va i t j pte
          × ((leaf_result undef c va acc j pte).0 ≡ some pa)
          × (m' ≡ set_cpu m (tlb_insert c va pte c.asid)))

  unchanged : (va : ℕ) (acc : Access) (c : Cpu) (i t : ℕ) → Effect va acc c i t (set_cpu m c)
  unfolding Effect
  unchanged va acc c i t = inl refl

  leaf_result-Effect :
      (va : ℕ) (acc : Access) (c : Cpu) (i t : ℕ)
      → let e = entry word va i t in
        pte_is_valid e ≡ true
        → pte_is_leaf e ≡ true
        → Effect va acc c i t (set_cpu m ((leaf_result undef c va acc i e).1))
  unfolding Effect
  leaf_result-Effect va acc c i t v l =
      elim (leaf_result_state undef c va acc i (entry word va i t)) [
        | inl e ↦ inl (ap (set_cpu m) e)
        | inr (pa, g, e) ↦ inr (i, entry word va i t, pa, leaf i t v l, g, ap (set_cpu m) e)
      ]

  pointer-Effect :
      (va : ℕ) (acc : Access) (c : Cpu) (i t : ℕ) (m' : Machine D)
      → let e = entry word va (suc i) t in
        pte_is_valid e ≡ true
        → pte_is_leaf e ≡ false
        → Effect va acc c i (table_of e) m'
        → Effect va acc c (suc i) t m'
  unfolding Effect
  pointer-Effect va acc c i t m' v l (inl e) = inl e
  pointer-Effect va acc c i t m' v l (inr (j, pte, pa, w, g, e)) =
      inr (j, pte, pa, pointer i t j pte v l w, g, e)

  visit-Effect :
      (va : ℕ) (acc : Access) (i t : ℕ) (d : ℕ → Machine D → Option ℕ × Machine D) (c : Cpu)
      → IsInRam t
      → let e = entry word va i t in
        (pte_is_valid e ≡ true
          → pte_is_leaf e ≡ false
          → Effect va acc c i t ((d (table_of e) (set_cpu m c)).1))
        → Effect va acc c i t ((visit undef bus va acc i t d (set_cpu m c)).1)
  visit-Effect va acc i t d c h below =
      let e = entry word va i t in
      rw (visit_state va acc i t d c h) (elim (Bool-cases (pte_is_valid e)) [
        | inr v ↦ rw v (unchanged va acc c i t)
        | inl v ↦ elim (Bool-cases (pte_is_leaf e)) [
          | inl l ↦ rw (v, l) (leaf_result-Effect va acc c i t v l)
          | inr l ↦ rw (v, l) (below v l)
        ]
      ])

  pub walk-Effect :
      (va : ℕ) (acc : Access) (c : Cpu) (i t : ℕ)
      → IsClosed word i t
      → Effect va acc c i t ((walk undef bus va acc i t (set_cpu m c)).1)
  unfolding walk
  walk-Effect va acc c zero t h = visit-Effect va acc 0 t _ c h (λ v l. unchanged va acc c 0 t)
  walk-Effect va acc c (suc i) t h = visit-Effect va acc (suc i) t _ c (h.0) (λ v l.
      pointer-Effect va acc c i t _ v l
        (walk-Effect va acc c i _ (IsClosed-entry word va i t h v l)))
