-- ===== src/Mmu/Tables.antt =====
-- src/mmu.c, `sv39_translate`: the walk against the tree of page tables in memory.
use risc_v_emulator.Prelude.{◌≤◌}
use risc_v_emulator.Prelude.{
  ℕ, zero, suc, ◌+◌, ◌-◌, ◌*◌, ◌/◌, ◌%◌, ◌^◌, ◌<◌, ◌≡◌, ◌↔◌, ◌⊎◌, refl, arith, ap, sym, subst, ◌∙◌,
  Bool, true, false, ◌==◌, ◌&&◌, not, if◌then◌else◌, Bool-cases, inl, inr, add64, bits, bit_and,
  u64, List, Option, none, some, some-injective,
}
use risc_v_emulator.Prelude.Bits.{bit_or_fields}
use risc_v_emulator.Prelude.Flags.{bit_and_mask}
use risc_v_emulator.Cpu.{Cpu, csr_satp}
use risc_v_emulator.Machine.{Machine, Region, Undefined, set_cpu, memory_base, memory_size}
use risc_v_emulator.Bus.{bus_read}
use risc_v_emulator.Mmu.Tlb.{Access, allows, tlb_insert}
use risc_v_emulator.Mmu.Walk.{
  leaf_mode_allows, pte_is_valid, pte_is_leaf, is_aligned, leaf_pa, phys_ok, leaf_result, visit,
  walk, sv39_translate,
}

-- The entry for an address in the table of level `i` at `table`, and the table that an entry points to.
abbrev pub entry : (ℕ → ℕ) → ℕ → ℕ → ℕ → ℕ
entry word va i table = word (table + va / 2 ^ (12 + 9 * i) % 512 * 8)

abbrev pub table_of : ℕ → ℕ
table_of pte = pte / 2 ^ 10 % 2 ^ 52 * 2 ^ 12

-- From the table of level `i` at `table` the entries for an address lead to the leaf `pte` of level `j`.
pub data Leads (word : ℕ → ℕ) (va : ℕ) : ℕ → ℕ → ℕ → ℕ → Type 0 where
  leaf :
      (i table : ℕ)
      → pte_is_valid (entry word va i table) ≡ true
      → pte_is_leaf (entry word va i table) ≡ true
      → Leads word va i table i (entry word va i table)
  pointer :
      (i table j pte : ℕ)
      → pte_is_valid (entry word va (suc i) table) ≡ true
      → pte_is_leaf (entry word va (suc i) table) ≡ false
      → Leads word va i (table_of (entry word va (suc i) table)) j pte
      → Leads word va (suc i) table j pte

-- The address in the page of a leaf. The source computes none for superpages, and leaves 0.
abbrev pub frame : ℕ → ℕ → ℕ → ℕ
frame va pte zero = table_of pte + va % 2 ^ 12
frame va pte (suc j) = 0

-- An address below the end of the RAM, or the last one of all, at which the sum of the test wraps.
abbrev pub IsPassed : ℕ → Type 0
IsPassed pa = (pa < memory_base + memory_size) ⊎ (pa ≡ 2 ^ 64 - 1)

-- A page of the RAM.
abbrev pub IsInRam : ℕ → Type 0
IsInRam t = (memory_base ≤ t) × (t + 2 ^ 12 ≤ memory_base + memory_size)

-- A table of level `i` that lies in the RAM, as all the tables do to which it leads.
abbrev pub IsClosed : (ℕ → ℕ) → ℕ → ℕ → Type 0
IsClosed word zero t = IsInRam t
IsClosed word (suc i) t =
    IsInRam t
    × ((k : ℕ)
        → k < 512
        → pte_is_valid (word (t + k * 8)) ≡ true
        → pte_is_leaf (word (t + k * 8)) ≡ false
        → IsClosed word i (table_of (word (t + k * 8))))

pub IsClosed-table : (word : ℕ → ℕ) (i t : ℕ) → IsClosed word i t → IsInRam t
IsClosed-table word zero t h = h
IsClosed-table word (suc i) t h = h.0

pub IsClosed-entry :
    (word : ℕ → ℕ) (va i t : ℕ)
    → IsClosed word (suc i) t
    → pte_is_valid (entry word va (suc i) t) ≡ true
    → pte_is_leaf (entry word va (suc i) t) ≡ false
    → IsClosed word i (table_of (entry word va (suc i) t))
IsClosed-entry word va i t h v l = h.1 (va / 2 ^ (12 + 9 * suc i) % 512) (omega arith) v l

-- A leaf that lets the access through, to a physical address up to the end of the RAM.
pub record IsGranted (c : Cpu) (va : ℕ) (acc : Access) (j pte pa : ℕ) : Type 0 where
  pub mode : leaf_mode_allows c acc pte ≡ true
  pub kind : allows c acc pte ≡ true
  pub aligned : is_aligned j pte ≡ true
  pub place : pa ≡ frame va pte j
  pub passed : IsPassed pa

chosen :
    (b : Bool) (x pa : ℕ) (c' c : Cpu)
    → (if◌then◌else◌ {A = Option ℕ × Cpu} b (some x, c') (none, c)).0 ≡ some pa
    → (b ≡ true) × (x ≡ pa)
chosen true x pa c' c e = (refl, some-injective x pa e)
chosen false x pa c' c e = absurd cc

-- What an entry that leads on to an address is.
after_entry :
    (v l : Bool) (x y : Option ℕ) (pa : ℕ)
    → (if not v then none else if l then x else y) ≡ some pa
    → (v ≡ true) × (((l ≡ true) × (x ≡ some pa)) ⊎ ((l ≡ false) × (y ≡ some pa)))
after_entry true true x y pa e = (refl, inl (refl, e))
after_entry true false x y pa e = (refl, inr (refl, e))
after_entry false l x y pa e = absurd cc

module _ (undef : Undefined) (mask : undef.ppn_mask ≡ 2 ^ 64 - 1) where
  pub masked : (x : ℕ) → u64 (bit_and x undef.ppn_mask * 2 ^ 12) ≡ x % 2 ^ 52 * 2 ^ 12
  masked x = rw (mask, bit_and_mask 64 x) (ground arith)

  pub leaf_pa-frame : (va pte j : ℕ) → leaf_pa undef va pte j ≡ frame va pte j
  leaf_pa-frame va pte zero =
      rw (masked (pte / 2 ^ 10))
        (bit_or_fields 12 (pte / 2 ^ 10 % 2 ^ 52) (va % 2 ^ 12) (omega arith))
  leaf_pa-frame va pte (suc j) = refl

  pub frame-lt : (va pte j : ℕ) → frame va pte j < 2 ^ 64
  frame-lt va pte zero = omega arith
  frame-lt va pte (suc j) = omega arith

  pub in_range : (x : ℕ) → x < 2 ^ 64 → (phys_ok x 1 ≡ true) ↔ IsPassed x
  in_range x h = (
    λ e. elim (Bool-cases (x == 2 ^ 64 - 1)) [
      | inl z ↦ inr (ground arith)
      | inr z ↦ inl (ground arith)
    ],
    λ l. elim l [ inl z ↦ ground arith | inr z ↦ ground arith ],
  )

  pub leaf_result-IsGranted :
      (c : Cpu) (va : ℕ) (acc : Access) (j pte pa : ℕ)
      → ((leaf_result undef c va acc j pte).0 ≡ some pa) ↔ IsGranted c va acc j pte pa
  unfolding leaf_result
  leaf_result-IsGranted c va acc j pte pa =
      let x = leaf_pa undef va pte j in
      let address = leaf_pa-frame va pte j in
      let bound : x < 2 ^ 64 = subst (λ y. y < 2 ^ 64) (sym address) (frame-lt va pte j) in
      let all =
        ((leaf_mode_allows c acc pte && allows c acc pte) && is_aligned j pte) && phys_ok x 1 in
      (
        λ e.
            let (t, same) = chosen all x pa (tlb_insert c va pte c.asid) c e in
            let fits : phys_ok x 1 ≡ true = ground arith in
            record {
              mode = ground arith;
              kind = ground arith;
              aligned = ground arith;
              place = sym same ∙ address;
              passed = subst IsPassed same ((in_range x bound).0 fits);
            },
        λ g.
            let fits : phys_ok x 1 ≡ true =
              (in_range x bound).1 (subst IsPassed (g.place ∙ sym address) g.passed) in
            rw (g.mode, g.kind, g.aligned, fits) (ap some (address ∙ sym g.place)),
      )

module _ {D : Type 0} (undef : Undefined) (bus : List (Region D)) (m : Machine D) (word : ℕ → ℕ)
    (mask : undef.ppn_mask ≡ 2 ^ 64 - 1)
    (reads : (a : ℕ) (c : Cpu)
      → memory_base ≤ a
      → a + 8 ≤ memory_base + memory_size
      → bus_read undef bus a 8 (set_cpu m c) ≡ (word a, set_cpu m c)) where
  -- What the walk does after an entry that points to a lower table.
  abbrev below : ℕ → Access → ℕ → ℕ → Cpu → Option ℕ
  below va acc zero t c = none
  below va acc (suc i) t c = (walk undef bus va acc i t (set_cpu m c)).0

  visit_lem :
      (va : ℕ) (acc : Access) (i t : ℕ) (d : ℕ → Machine D → Option ℕ × Machine D) (c : Cpu)
      → IsInRam t
      → let e = entry word va i t in
        (visit undef bus va acc i t d (set_cpu m c)).0 ≡ (
          if not (pte_is_valid e)
          then none
          else if pte_is_leaf e
          then (leaf_result undef c va acc i e).0
          else (d (table_of e) (set_cpu m c)).0)
  unfolding visit
  visit_lem va acc i t d c (lo, hi) =
      let at : add64 (bits va (12 + 9 * i) 9 * 8) t ≡ t + va / 2 ^ (12 + 9 * i) % 512 * 8 =
        ground arith in
      let e = entry word va i t in
      rw
        (
          at,
          reads (t + va / 2 ^ (12 + 9 * i) % 512 * 8) c (omega arith) (omega arith),
          masked undef mask (e / 2 ^ 10),
        )
        (elim (Bool-cases (pte_is_valid e)) [
          | inr v ↦ rw v refl
          | inl v ↦ elim (Bool-cases (pte_is_leaf e)) [
            | inl l ↦ rw (v, l) refl
            | inr l ↦ rw (v, l) refl
          ]
        ])

  walk_lem :
      (va : ℕ) (acc : Access) (i t : ℕ) (c : Cpu)
      → IsClosed word i t
      → let e = entry word va i t in
        (walk undef bus va acc i t (set_cpu m c)).0 ≡ (
          if not (pte_is_valid e)
          then none
          else if pte_is_leaf e
          then (leaf_result undef c va acc i e).0
          else below va acc i (table_of e) c)
  unfolding walk
  walk_lem va acc zero t c h = visit_lem va acc 0 t _ c h
  walk_lem va acc (suc i) t c h = visit_lem va acc (suc i) t _ c (h.0)

  walk-Leads :
      (va : ℕ) (acc : Access) (c : Cpu) {i t j pte : ℕ}
      → IsClosed word i t
      → Leads word va i t j pte
      → (walk undef bus va acc i t (set_cpu m c)).0 ≡ (leaf_result undef c va acc j pte).0
  walk-Leads va acc c h (leaf i t v l) = walk_lem va acc i t c h ∙ rw (v, l) refl
  walk-Leads va acc c h (pointer i t j pte v l w) =
      walk_lem va acc (suc i) t c h
      ∙ rw (v, l) (walk-Leads va acc c (IsClosed-entry word va i t h v l) w)

  Leads-walk :
      (va : ℕ) (acc : Access) (c : Cpu) (i t pa : ℕ)
      → IsClosed word i t
      → (walk undef bus va acc i t (set_cpu m c)).0 ≡ some pa
      → (j : ℕ) × (pte : ℕ) × Leads word va i t j pte
        × ((leaf_result undef c va acc j pte).0 ≡ some pa)
  Leads-walk va acc c zero t pa h e =
      let p = entry word va 0 t in
      let (v, rest) =
        after_entry (pte_is_valid p) (pte_is_leaf p) _ _ pa (sym (walk_lem va acc 0 t c h) ∙ e) in
      elim rest [ inl (l, f) ↦ (0, p, leaf 0 t v l, f) | inr (l, f) ↦ absurd cc ]
  Leads-walk va acc c (suc i) t pa h e =
      let p = entry word va (suc i) t in
      let (v, rest) =
        after_entry (pte_is_valid p) (pte_is_leaf p) _ _ pa
          (sym (walk_lem va acc (suc i) t c h) ∙ e) in
      elim rest [
        | inl (l, f) ↦ (suc i, p, leaf (suc i) t v l, f)
        | inr (l, f) ↦
            let (j, q, w, g) =
              Leads-walk va acc c i (table_of p) pa (IsClosed-entry word va i t h v l) f in
            (j, q, pointer i t j q v l w, g)
      ]

  picked :
      (b : Bool) (x y : Option ℕ × Machine D)
      → b ≡ true
      → (if◌then◌else◌ {A = Option ℕ × Machine D} b x y).0 ≡ x.0
  picked b x y t = rw t refl

  sv39_translate-walk :
      (va : ℕ) (acc : Access)
      → m.cpu.csr csr_satp / 2 ^ 60 ≡ 8
      → let satp = m.cpu.csr csr_satp in
        (sv39_translate undef bus va acc m).0
        ≡ (walk undef bus va acc 2
            (satp % 2 ^ 44 * 2 ^ 12)
            (set_cpu m (record m.cpu { satp = satp }))).0
  unfolding sv39_translate
  sv39_translate-walk va acc mode =
      let satp = m.cpu.csr csr_satp in
      let c : Cpu = record m.cpu { satp = satp } in
      let on : satp / 2 ^ 60 == 8 ≡ true = ground arith in
      let start : bits satp 0 44 ≡ satp % 2 ^ 44 = omega arith in
      picked (satp / 2 ^ 60 == 8) _ _ on
      ∙ ap (λ (r : ℕ). (walk undef bus va acc 2 (r * 2 ^ 12) (set_cpu m c)).0) start

  -- In the mode Sv39 the walk comes to what the leaf gives to which the tables lead.
  pub sv39_translate-Leads :
      (va : ℕ) (acc : Access) {j pte : ℕ}
      → m.cpu.csr csr_satp / 2 ^ 60 ≡ 8
      → IsClosed word 2 (m.cpu.csr csr_satp % 2 ^ 44 * 2 ^ 12)
      → Leads word va 2 (m.cpu.csr csr_satp % 2 ^ 44 * 2 ^ 12) j pte
      → (sv39_translate undef bus va acc m).0
        ≡ (leaf_result undef (record m.cpu { satp = m.cpu.csr csr_satp }) va acc j pte).0
  sv39_translate-Leads va acc mode h w =
      sv39_translate-walk va acc mode
      ∙ walk-Leads va acc (record m.cpu { satp = m.cpu.csr csr_satp }) h w

  pub sv39_translate_cases :
      (va : ℕ) (acc : Access) (pa : ℕ)
      → m.cpu.csr csr_satp / 2 ^ 60 ≡ 8
      → IsClosed word 2 (m.cpu.csr csr_satp % 2 ^ 44 * 2 ^ 12)
      → ((sv39_translate undef bus va acc m).0 ≡ some pa) ↔ (
          (j : ℕ) × (pte : ℕ) × Leads word va 2 (m.cpu.csr csr_satp % 2 ^ 44 * 2 ^ 12) j pte
          × IsGranted (record m.cpu { satp = m.cpu.csr csr_satp }) va acc j pte pa)
  sv39_translate_cases va acc pa mode low =
      let satp = m.cpu.csr csr_satp in
      let root = satp % 2 ^ 44 * 2 ^ 12 in
      let c : Cpu = record m.cpu { satp = satp } in
      let walked = sv39_translate-walk va acc mode in
      (
        λ e.
            let (j, p, w, g) = Leads-walk va acc c 2 root pa low (sym walked ∙ e) in
            (j, p, w, (leaf_result-IsGranted undef mask c va acc j p pa).0 g),
        λ (j, p, w, g).
            walked
            ∙ walk-Leads va acc c low w
            ∙ (leaf_result-IsGranted undef mask c va acc j p pa).1 g,
      )
