-- ===== src/Mmu/Answers.antt =====
-- src/mmu.c, `get_pa`: a translation through the buffer against a walk of the tables.
use risc_v_emulator.Prelude.{
  ℕ, ◌+◌, ◌-◌, ◌*◌, ◌/◌, ◌%◌, ◌^◌, ◌<◌, ◌≤◌, ◌≡◌, ◌⊎◌, ◌↔◌, refl, arith, ap, sym, ◌∙◌, subst, Bool,
  true, false, ◌&&◌, if◌then◌else◌, inl, inr, List, Option, some, none,
}
use risc_v_emulator.Cpu.{Cpu, csr_satp}
use risc_v_emulator.Machine.{Machine, Region, Undefined, set_cpu, memory_base, memory_size}
use risc_v_emulator.Bus.{bus_read}
use risc_v_emulator.Mmu.Tlb.{
  Access, fetch, load, store, TlbResult, ok, miss, fault, allows, matches, vpn_of, tlb_size,
  tlb_hit, tlb_lookup,
}
use risc_v_emulator.Mmu.Walk.{
  leaf_result, leaf_mode_allows, leaf_pa, phys_ok, sv39_translate, after_walk, after_lookup, get_pa,
}
use risc_v_emulator.Mmu.Tables.{
  IsClosed, table_of, frame, Leads, IsGranted, leaf_pa-frame, in_range, frame-lt,
  sv39_translate_cases, sv39_translate-Leads,
}
use risc_v_emulator.Mmu.Backed.{IsBacked-at, checked_alike, backed-hit}
use risc_v_emulator.Mmu.Effects.{lookup_loop_cases}
use risc_v_emulator.Mmu.Coherent.{IsCoherent, root_of}
use risc_v_emulator.Mmu.Agreement.{get_pa_lem}

-- The address of a result of the walk: a page fault gives 0.
abbrev pub address : Option ℕ → ℕ
address none = 0
address (some pa) = pa

-- Two optional numbers with the same values are the same.
same_option : (a b : Option ℕ) → ((x : ℕ) → (a ≡ some x) ↔ (b ≡ some x)) → a ≡ b
same_option none none h = refl
same_option none (some y) h = (h y).1 refl
same_option (some x) b h = sym ((h x).0 refl)

-- The rights to a page do not depend on the buffer.
allows_alike :
    (c d : Cpu) (acc : Access) (pte : ℕ)
    → c.privilege ≡ d.privilege
    → c.mxr ≡ d.mxr
    → c.sum ≡ d.sum
    → (leaf_mode_allows c acc pte ≡ leaf_mode_allows d acc pte)
      × (allows c acc pte ≡ allows d acc pte)
allows_alike c d fetch pte p x s = (rw (p, s) refl, refl)
allows_alike c d load pte p x s = (rw (p, s) refl, rw x refl)
allows_alike c d store pte p x s = (rw (p, s) refl, refl)

checked_alike_lem :
    (c d : Cpu) (acc : Access)
    → c.privilege ≡ d.privilege
    → c.sum ≡ d.sum
    → checked_alike c acc ≡ checked_alike d acc
checked_alike_lem c d fetch p s = rw (p, s) refl
checked_alike_lem c d load p s = refl
checked_alike_lem c d store p s = refl

after_walk-address :
    {D : Type 0} (va : ℕ) (acc : Access) (r : Option ℕ × Machine D)
    → (after_walk va acc r).0 ≡ address r.0
after_walk-address va acc (some pa, m) = refl
after_walk-address va acc (none, m) = refl

-- The outcome of a hit, as the walk would give it.
hit_address :
    {D : Type 0}
    → (b : Bool) (pa va : ℕ) (acc : Access) (m : Machine D) (walked : ℕ × Machine D)
    → (after_lookup va acc (if b then ok pa else fault) m walked).0
      ≡ address (if b then some pa else none)
hit_address true pa va acc m walked = refl
hit_address false pa va acc m walked = refl

IsGranted-alike :
    (c d : Cpu) (va : ℕ) (acc : Access) (j pte pa : ℕ)
    → c.privilege ≡ d.privilege
    → c.mxr ≡ d.mxr
    → c.sum ≡ d.sum
    → IsGranted c va acc j pte pa
    → IsGranted d va acc j pte pa
IsGranted-alike c d va acc j pte pa p x s g =
    let (mode, kind) = allows_alike c d acc pte p x s in
    record {
      mode = sym mode ∙ g.mode;
      kind = sym kind ∙ g.kind;
      aligned = g.aligned;
      place = g.place;
      passed = g.passed;
    }

guarded :
    (b₁ b₂ p : Bool) (x y : ℕ) (c d : Cpu)
    → x ≡ y
    → p ≡ true
    → (if◌then◌else◌ {A = Option ℕ × Cpu} (((b₁ && b₂) && true) && p) (some x, d) (none, c)).0
      ≡ (if b₁ && b₂ then some y else none)
guarded true true p x y c d e f = rw f (ap some e)
guarded true false p x y c d e f = refl
guarded false b₂ p x y c d e f = refl

module _ {D : Type 0} (undef : Undefined) (bus : List (Region D)) (m : Machine D) (word : ℕ → ℕ)
    (mask : undef.ppn_mask ≡ 2 ^ 64 - 1)
    (reads : (a : ℕ) (c : Cpu)
      → memory_base ≤ a
      → a + 8 ≤ memory_base + memory_size
      → bus_read undef bus a 8 (set_cpu m c) ≡ (word a, set_cpu m c))
    (closed : IsClosed word 2 (root_of m.cpu))
    (flat : (va j pte : ℕ)
      → va < 2 ^ 38
      → Leads word va 2 (root_of m.cpu) j pte
      → (j ≡ 0) × (pte < 2 ^ 54))
    (sv39 : m.cpu.csr csr_satp / 2 ^ 60 ≡ 8) where
  -- The leaf of a page that an entry of the buffer serves, through the walk.
  backed_walk :
      (va : ℕ) (acc : Access) (pte : ℕ)
      → Leads word va 2 (root_of m.cpu) 0 pte
      → table_of pte + 2 ^ 12 ≤ memory_base + memory_size
      → (sv39_translate undef bus va acc m).0 ≡ (
          if leaf_mode_allows m.cpu acc pte && allows m.cpu acc pte
          then some (frame va pte 0)
          else none)
  unfolding leaf_result
  backed_walk va acc pte w fits =
      let c : Cpu = record m.cpu { satp = m.cpu.csr csr_satp } in
      let place = leaf_pa-frame undef mask va pte 0 in
      let inside : phys_ok (frame va pte 0) 1 ≡ true =
        (in_range undef mask (frame va pte 0) (frame-lt undef mask va pte 0)).1
          (inl (omega arith)) in
      sv39_translate-Leads undef bus m word mask reads va acc sv39 closed w
      ∙ guarded (leaf_mode_allows c acc pte) (allows c acc pte) (phys_ok (leaf_pa undef va pte 0) 1)
          (leaf_pa undef va pte 0) (frame va pte 0) c _ place
          (ap (λ (x : ℕ). phys_ok x 1) place ∙ inside)

  -- A walk does not depend on the buffer.
  same_walk :
      (va : ℕ) (acc : Access) (c : Cpu)
      → IsCoherent word (root_of m.cpu) m.cpu c
      → (sv39_translate undef bus va acc (set_cpu m c)).0 ≡ (sv39_translate undef bus va acc m).0
  same_walk va acc c h =
      let roots : root_of c ≡ root_of m.cpu = ap (λ (s : ℕ). s % 2 ^ 44 * 2 ^ 12) h.satp in
      let here = λ (pa : ℕ).
        sv39_translate_cases undef bus (set_cpu m c) word mask reads va acc pa
          (ap (λ (s : ℕ). s / 2 ^ 60) h.satp ∙ sv39) (subst (IsClosed word 2) (sym roots) closed) in
      let there =
        λ (pa : ℕ). sv39_translate_cases undef bus m word mask reads va acc pa sv39 closed in
      same_option _ _ (λ pa. (
        λ e.
            let (j, pte, w, g) = (here pa).0 e in
            (there pa).1 (
              j,
              pte,
              subst (λ t. Leads word va 2 t j pte) roots w,
              IsGranted-alike _ _ va acc j pte pa h.mode h.execute_only h.user_pages g,
            ),
        λ e.
            let (j, pte, w, g) = (there pa).0 e in
            (here pa).1 (
              j,
              pte,
              subst (λ t. Leads word va 2 t j pte) (sym roots) w,
              IsGranted-alike _ _ va acc j pte pa (sym h.mode) (sym h.execute_only)
                  (sym h.user_pages) g,
            ),
      ))

  get_pa_address :
      (va : ℕ) (acc : Access) (c : Cpu)
      → m.cpu.csr csr_satp / 2 ^ 60 ≡ 8
      → c.csr csr_satp ≡ m.cpu.csr csr_satp
      → let (found, c') = tlb_lookup c va acc c.asid in
        (get_pa undef bus va acc (set_cpu m c)).0
        ≡ (after_lookup va acc found
            (set_cpu m c')
            (after_walk va acc (sv39_translate undef bus va acc (set_cpu m c')))).0
  get_pa_address va acc c on same =
      ap (λ (r : ℕ × Machine D). r.0)
        (get_pa_lem undef bus m word mask reads closed flat va acc c on same)

  lookup_cases :
      (va : ℕ) (acc : Access) (c : Cpu)
      → (tlb_lookup c va acc c.asid ≡ (miss, c))
        ⊎ ((k : ℕ) × (k < tlb_size)
            × (matches (c.tlb k) (vpn_of va) c.asid ≡ true)
            × (tlb_lookup c va acc c.asid ≡ tlb_hit c va acc k))
  unfolding tlb_lookup
  lookup_cases va acc c = elim (lookup_loop_cases c va acc c.asid tlb_size 0) [
    | inl e ↦ inl e
    | inr (k, l, hit, e) ↦ inr (k, omega arith, hit, e)
  ]

  hit_walk :
      (va : ℕ) (acc : Access) (c : Cpu) (k : ℕ)
      → va < 2 ^ 38
      → checked_alike m.cpu acc ≡ true
      → k < tlb_size
      → matches (c.tlb k) (vpn_of va) c.asid ≡ true
      → IsCoherent word (root_of m.cpu) m.cpu c
      → (m' : Machine D) (walked : ℕ × Machine D)
      → (after_lookup va acc ((tlb_hit c va acc k).0) m' walked).0
        ≡ address (sv39_translate undef bus va acc m).0
  hit_walk va acc c k low alike l hit h m' walked =
      let (pte, b) =
        IsBacked-at word (root_of m.cpu) m.cpu.asid (c.tlb k) va (h.entries k l) low
          (subst (λ a. matches (c.tlb k) (vpn_of va) a ≡ true) h.space hit) in
      let (mode, kind) = allows_alike c m.cpu acc pte h.mode h.execute_only h.user_pages in
      let rights : (leaf_mode_allows c acc pte && allows c acc pte)
          ≡ (leaf_mode_allows m.cpu acc pte && allows m.cpu acc pte) =
        ap (λ (x : Bool). x && allows c acc pte) mode
        ∙ ap (λ (x : Bool). leaf_mode_allows m.cpu acc pte && x) kind in
      ap (λ (r : TlbResult). (after_lookup va acc r m' walked).0)
        (backed-hit word (root_of m.cpu) m.cpu.asid c va acc k pte
          (checked_alike_lem c m.cpu acc h.mode h.user_pages ∙ alike) b)
      ∙ hit_address (leaf_mode_allows c acc pte && allows c acc pte) (frame va pte 0) va acc m'
          walked
      ∙ ap address (
          ap (λ (g : Bool). if g then some (frame va pte 0) else none) rights
          ∙ sym (backed_walk va acc pte b.leads b.in_ram))

  -- A translation through a buffer that agrees with the tables gives the address of the walk.
  pub get_pa-walk :
      (va : ℕ) (acc : Access) (c : Cpu)
      → va < 2 ^ 38
      → checked_alike m.cpu acc ≡ true
      → IsCoherent word (root_of m.cpu) m.cpu c
      → (get_pa undef bus va acc (set_cpu m c)).0 ≡ address (sv39_translate undef bus va acc m).0
  get_pa-walk va acc c low alike h =
      get_pa_address va acc c sv39 h.satp ∙ elim (lookup_cases va acc c) [
        | inl e ↦ rw e (
            after_walk-address va acc (sv39_translate undef bus va acc (set_cpu m c))
            ∙ ap address (same_walk va acc c h))
        | inr (k, l, hit, e) ↦ rw e (hit_walk va acc c k low alike l hit h _ _)
      ]
