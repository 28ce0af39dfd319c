-- ===== src/Exec/Zero/Devices.antt =====
-- src/bus.c, src/mmu.c: what happens to a part of the hart's state across a bus access and a
-- translation: nothing, provided that the devices leave it alone.
use risc_v_emulator.Prelude.{
  ℕ, zero, suc, ◌+◌, ◌*◌, ◌≡◌, refl, arith, ◌∙◌, List, [], ◌∷◌, Bool-cases, inl, inr, some, none,
  Option,
}
use risc_v_emulator.Prelude.{not, ◌&&◌, ◌/◌, ◌^◌, add64, ◌==◌, bits}
use risc_v_emulator.Cpu.{Cpu, MemFault, csr_satp}
use risc_v_emulator.Machine.{Machine, Region, Undefined, set_cpu, halt}
use risc_v_emulator.Bus.{holds, bus_read, bus_write}
use risc_v_emulator.Mmu.Tlb.{
  Access, TlbResult, ok, miss, fault, tlb_lookup, lookup_loop, tlb_hit, tlb_insert, allows, matches,
  vpn_of,
}
use risc_v_emulator.Mmu.Walk.{
  visit, walk, leaf_result, sv39_translate, handle_fault, after_walk, after_lookup, get_pa,
  pte_is_valid, pte_is_leaf, leaf_mode_allows, is_aligned, leaf_pa, phys_ok,
}

-- The general registers, or the count of instructions.
pub data Part : Type 0 where
  gprs instructions : Part

abbrev pub part : Part → Cpu → ℕ → ℕ
part gprs c = c.gpr
part instructions c = λ r. c.inst_count

halt-part : (p : Part) {D : Type 0} (m : Machine D) → part p (halt m).cpu ≡ part p m.cpu
halt-part gprs m = refl
halt-part instructions m = refl

tlb_hit-part :
    (p : Part) (c : Cpu) (va : ℕ) (acc : Access) (i : ℕ) → part p (tlb_hit c va acc i).1 ≡ part p c
unfolding tlb_hit
tlb_hit-part gprs c va acc i = refl
tlb_hit-part instructions c va acc i = refl

tlb_insert-part :
    (p : Part) (c : Cpu) (va pte asid : ℕ) → part p (tlb_insert c va pte asid) ≡ part p c
unfolding tlb_insert
tlb_insert-part gprs c va pte asid = refl
tlb_insert-part instructions c va pte asid = refl

with_satp-part : (p : Part) (c : Cpu) (v : ℕ) → part p (record c { satp = v }) ≡ part p c
with_satp-part gprs c v = refl
with_satp-part instructions c v = refl

with_fault-part :
    (p : Part) (c : Cpu) (f : MemFault) → part p (record c { mem_fault = f }) ≡ part p c
with_fault-part gprs c f = refl
with_fault-part instructions c f = refl

module _ (p : Part) where
  module _ {D : Type 0} where
    -- The handlers of a region leave the part alone.
    pub record Keeps (r : Region D) : Type 0 where
      pub on_read :
          (off size : ℕ) (m : Machine D) → part p ((r.read off size m).1.cpu) ≡ part p (m.cpu)
      pub on_write :
          (off value size : ℕ) (m : Machine D)
          → part p ((r.write off value size m).cpu) ≡ part p (m.cpu)

    abbrev pub AllKeep : List (Region D) → Type 0
    AllKeep [] = Unit {0}
    AllKeep (r ∷ rs) = Keeps r × AllKeep rs

    pub bus_read-part :
        (undef : Undefined) (bus : List (Region D)) (addr size : ℕ) (m : Machine D)
        → AllKeep bus
        → part p ((bus_read undef bus addr size m).1.cpu) ≡ part p (m.cpu)
    unfolding bus_read
    bus_read-part undef [] addr size m h = ground arith
    bus_read-part undef (r ∷ rs) addr size m h = elim (Bool-cases (holds r addr)) [
      | inl e ↦ rw e (h.0.on_read _ size m)
      | inr e ↦ rw e (bus_read-part undef rs addr size m h.1)
    ]

    pub bus_write-part :
        (bus : List (Region D)) (addr value size : ℕ) (m : Machine D)
        → AllKeep bus
        → part p ((bus_write bus addr value size m).cpu) ≡ part p (m.cpu)
    unfolding bus_write
    bus_write-part [] addr value size m h = ground (arith, halt-part p m)
    bus_write-part (r ∷ rs) addr value size m h = elim (Bool-cases (holds r addr)) [
      | inl e ↦ rw e (h.0.on_write _ value size m)
      | inr e ↦ rw e (bus_write-part rs addr value size m h.1)
    ]

  lookup_loop-part :
      (c : Cpu) (va : ℕ) (acc : Access) (asid left i : ℕ)
      → part p ((lookup_loop c va acc asid left i).1) ≡ part p c
  unfolding lookup_loop
  lookup_loop-part c va acc asid zero i = refl
  lookup_loop-part c va acc asid (suc left) i =
      elim (Bool-cases (matches (c.tlb i) (vpn_of va) asid)) [
        | inl e ↦ rw e (tlb_hit-part p c va acc i)
        | inr e ↦ rw e (lookup_loop-part c va acc asid left (i + 1))
      ]

  tlb_lookup-part :
      (c : Cpu) (va : ℕ) (acc : Access) (asid : ℕ)
      → part p ((tlb_lookup c va acc asid).1) ≡ part p c
  unfolding tlb_lookup
  tlb_lookup-part c va acc asid = lookup_loop-part c va acc asid _ 0

  leaf_result-part :
      (undef : Undefined) (c : Cpu) (va : ℕ) (acc : Access) (i pte : ℕ)
      → part p ((leaf_result undef c va acc i pte).1) ≡ part p c
  unfolding leaf_result
  leaf_result-part undef c va acc i pte =
      elim (Bool-cases (
        ((leaf_mode_allows c acc pte && allows c acc pte) && is_aligned i pte)
        && phys_ok (leaf_pa undef va pte i) 1)) [
          | inl e ↦ rw e (tlb_insert-part p c va pte c.asid)
          | inr e ↦ rw e refl
        ]

  module _ {D : Type 0} where
    handle_fault-part :
        (m : Machine D) (va : ℕ) (acc : Access)
        → part p ((handle_fault m va acc).cpu) ≡ part p (m.cpu)
    unfolding handle_fault
    handle_fault-part m va acc = with_fault-part p m.cpu _

    after_walk-part :
        (va : ℕ) (acc : Access) (r : Option ℕ × Machine D) {g : ℕ → ℕ}
        → part p (r.1.cpu) ≡ g
        → part p ((after_walk va acc r).1.cpu) ≡ g
    after_walk-part va acc (some pa, m) h = h
    after_walk-part va acc (none, m) h = handle_fault-part m va acc ∙ h

    after_lookup-part :
        (va : ℕ) (acc : Access) (r : TlbResult) (m : Machine D) (walked : ℕ × Machine D) {g : ℕ → ℕ}
        → part p (m.cpu) ≡ g
        → part p (walked.1.cpu) ≡ g
        → part p ((after_lookup va acc r m walked).1.cpu) ≡ g
    after_lookup-part va acc (ok pa) m walked h w = h
    after_lookup-part va acc miss m walked h w = w
    after_lookup-part va acc fault m walked h w = handle_fault-part m va acc ∙ h

  module _ {D : Type 0} (undef : Undefined) (bus : List (Region D)) (keep : AllKeep bus) where
    visit-part :
        (va : ℕ) (acc : Access) (i table_addr : ℕ) (descend : ℕ → Machine D → Option ℕ × Machine D)
        (m : Machine D)
        → ((t : ℕ) (m₁ : Machine D) → part p ((descend t m₁).1.cpu) ≡ part p (m₁.cpu))
        → part p ((visit undef bus va acc i table_addr descend m).1.cpu) ≡ part p (m.cpu)
    unfolding visit
    visit-part va acc i table_addr descend m h =
        let r : ℕ × Machine D =
          bus_read undef bus (add64 (bits va (12 + 9 * i) 9 * 8) table_addr) 8 m in
        let kept : part p (r.1.cpu) ≡ part p (m.cpu) = bus_read-part undef bus _ 8 m keep in
        elim (Bool-cases (not (pte_is_valid r.0))) [
          | inl e ↦ rw e kept
          | inr e ↦ elim (Bool-cases (pte_is_leaf r.0)) [
            | inl l ↦ rw (e, l) (leaf_result-part undef r.1.cpu va acc i r.0 ∙ kept)
            | inr l ↦ rw (e, l) (h _ r.1 ∙ kept)
          ]
        ]

    walk-part :
        (va : ℕ) (acc : Access) (i table_addr : ℕ) (m : Machine D)
        → part p ((walk undef bus va acc i table_addr m).1.cpu) ≡ part p (m.cpu)
    unfolding walk
    walk-part va acc zero table_addr m =
        visit-part va acc 0 table_addr (λ t m₁. (none, m₁)) m (λ t m₁. refl)
    walk-part va acc (suc i) table_addr m =
        visit-part va acc (suc i) table_addr (λ t m₁. walk undef bus va acc i t m₁) m
          (λ t m₁. walk-part va acc i t m₁)

    sv39_translate-part :
        (va : ℕ) (acc : Access) (m : Machine D)
        → part p ((sv39_translate undef bus va acc m).1.cpu) ≡ part p (m.cpu)
    unfolding sv39_translate
    sv39_translate-part va acc m = elim (Bool-cases (m.cpu.csr csr_satp / 2 ^ 60 == 8)) [
      | inl e ↦ rw e (walk-part va acc 2 _ _ ∙ with_satp-part p m.cpu (m.cpu.csr csr_satp))
      | inr e ↦ rw e (with_satp-part p m.cpu (m.cpu.csr csr_satp))
    ]

    -- Translation leaves the part alone.
    pub get_pa-part :
        (va : ℕ) (acc : Access) (m : Machine D)
        → part p ((get_pa undef bus va acc m).1.cpu) ≡ part p (m.cpu)
    unfolding get_pa
    get_pa-part va acc m =
        let (found, c) = tlb_lookup m.cpu va acc m.cpu.asid in
        let looked : part p c ≡ part p (m.cpu) = tlb_lookup-part m.cpu va acc m.cpu.asid in
        elim (Bool-cases (bits (m.cpu.csr csr_satp) 60 4 == 0)) [
          | inl e ↦ rw e refl
          | inr e ↦ rw e (
              after_lookup-part va acc found _ _ looked
                (after_walk-part va acc _ (sv39_translate-part va acc (set_cpu m c) ∙ looked)))
        ]
