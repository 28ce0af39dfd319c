-- ===== src/Mmu/Refill.antt =====
-- src/mmu.c: a page that the walk put into the translation lookaside buffer is served from there.
use risc_v_emulator.Prelude.{ℕ, ◌-◌, ◌/◌, ◌%◌, ◌^◌, ◌<◌, ◌≡◌, inl, inr, refl, arith, ap, Bool-cases}
use risc_v_emulator.Prelude.{
  Bool, true, false, ◌&&◌, if◌then◌else◌, bit, Option, some, none, update_self, update_ne,
}
use risc_v_emulator.Prelude.Flags.{bit_and_mask}
use risc_v_emulator.Cpu.{Cpu}
use risc_v_emulator.Machine.{Undefined}
use risc_v_emulator.Mmu.Tlb.{
  Access, fetch, load, store, ok, matches, tlb_hit, tlb_check, allows, tlb_lookup, tlb_insert,
  victim, new_entry, flags_of, vpn_of, tlb_size,
}
use risc_v_emulator.Mmu.Walk.{leaf_result, leaf_pa, leaf_mode_allows, phys_ok}
use risc_v_emulator.Mmu.Flush.{lookup_loop-hit, victim-lt}

new_entry-matches :
    (c : Cpu) (va pte asid : ℕ) → matches (new_entry c va pte asid) (vpn_of va) asid ≡ true
unfolding matches new_entry
new_entry-matches c va pte asid = elim (Bool-cases (bit pte 5)) [
  | inl e ↦ rw e (ground arith)
  | inr e ↦ rw e (ground arith)
]

-- After an insertion for a page that no entry matched, lookups in the page hit the new entry.
pub tlb_lookup-tlb_insert :
    (c : Cpu) (va va' pte : ℕ) (acc : Access) (asid : ℕ)
    → ((j : ℕ) → j < tlb_size → matches (c.tlb j) (vpn_of va) asid ≡ false)
    → vpn_of va' ≡ vpn_of va
    → tlb_lookup (tlb_insert c va pte asid) va' acc asid
      ≡ tlb_hit (tlb_insert c va pte asid) va' acc (victim c)
unfolding tlb_lookup tlb_insert
tlb_lookup-tlb_insert c va va' pte acc asid none_matches page =
    let new = new_entry c va pte asid in
    let c' : Cpu = tlb_insert c va pte asid in
    lookup_loop-hit c' va' acc asid tlb_size 0 (victim c) (omega arith) (omega (arith, victim-lt c))
      (rw (page, update_self c.tlb (victim c) new) (new_entry-matches c va pte asid))
      (λ j p q.
        rw (page, update_ne c.tlb (victim c) j new (λ e. ground arith))
          (none_matches j (omega (arith, victim-lt c))))

pub flags_of_lem :
    (pte : ℕ)
    → (bit (flags_of pte) 0 ≡ bit pte 0)
      × (bit (flags_of pte) 1 ≡ bit pte 1)
      × (bit (flags_of pte) 2 ≡ bit pte 2)
      × (bit (flags_of pte) 3 ≡ bit pte 3)
      × (bit (flags_of pte) 4 ≡ bit pte 4)
unfolding bit
flags_of_lem pte = (ground arith, ground arith, ground arith, ground arith, ground arith)

-- What the walk allows, the check of a hit allows too.
granted :
    (c : Cpu) (acc : Access) (pte : ℕ)
    → bit pte 0 ≡ true
    → leaf_mode_allows c acc pte ≡ true
    → allows c acc pte ≡ true
    → tlb_check c acc (flags_of pte) ≡ true
unfolding tlb_check
granted c fetch pte v p q =
    let (f₀, f₁, f₂, f₃, f₄) = flags_of_lem pte in rw (f₀, f₃, f₄) (ground arith)
granted c load pte v p q =
    let (f₀, f₁, f₂, f₃, f₄) = flags_of_lem pte in rw (f₀, f₁, f₃, f₄) (ground arith)
granted c store pte v p q =
    let (f₀, f₁, f₂, f₃, f₄) = flags_of_lem pte in rw (f₀, f₂, f₄) (ground arith)

-- The address that a hit of the new entry gives.
hit_lem :
    (undef : Undefined) (c : Cpu) (va pte : ℕ) (acc : Access) (asid : ℕ)
    → undef.ppn_mask ≡ 2 ^ 64 - 1
    → pte < 2 ^ 54
    → tlb_check c acc (flags_of pte) ≡ true
    → (tlb_hit (tlb_insert c va pte asid) va acc (victim c)).0 ≡ ok (leaf_pa undef va pte 0)
unfolding tlb_hit tlb_insert tlb_check new_entry
hit_lem undef c va pte acc asid mask clear g =
    let same : pte / 2 ^ 10 % 2 ^ 64 ≡ pte / 2 ^ 10 % 2 ^ 44 = omega arith in
    rw
      (
        mask,
        bit_and_mask 64 (pte / 2 ^ 10),
        same,
        update_self c.tlb (victim c) (new_entry c va pte asid),
        g,
      )
      refl

none-some : {x : ℕ} → none ≡ some x → ⊥
none-some h = cc

abbrev the_result : Bool → ℕ → Cpu → Cpu → Option ℕ × Cpu
the_result b p c d = if b then (some p, d) else (none, c)

guarded_result :
    (b : Bool) (p pa : ℕ) (c d c' : Cpu)
    → the_result b p c d ≡ (some pa, c')
    → (b ≡ true) × (p ≡ pa) × (d ≡ c')
guarded_result true p pa c d c' h =
    (refl, ap (λ r. elim r.0 [ none ↦ p | some x ↦ x ]) h, ap (λ r. r.1) h)
guarded_result false p pa c d c' h = absurd (none-some (ap (λ r. r.0) h))

both : (a b d e : Bool) → (((a && b) && d) && e) ≡ true → (a ≡ true) × (b ≡ true)
both a b d e h = (ground arith, ground arith)

-- A page whose valid leaf entry at level 0 the walk granted is granted by the buffer afterwards,
-- for the same kind of access and at the same physical address, if no entry of the buffer matched
-- the page before, the reserved bits of the entry are clear and the mask of the page number is
-- the one that `(1 << 44) - 1` becomes with the shift of an `int` past its width giving 0.
pub leaf_result-tlb_lookup :
    (undef : Undefined) (c c' : Cpu) (va pte pa : ℕ) (acc : Access)
    → undef.ppn_mask ≡ 2 ^ 64 - 1
    → pte < 2 ^ 54
    → ((j : ℕ) → j < tlb_size → matches (c.tlb j) (vpn_of va) c.asid ≡ false)
    → bit pte 0 ≡ true
    → leaf_result undef c va acc 0 pte ≡ (some pa, c')
    → (tlb_lookup c' va acc c.asid).0 ≡ ok pa
unfolding leaf_result
leaf_result-tlb_lookup undef c c' va pte pa acc mask clear none_matches v h =
    let (g, e, i) =
      guarded_result
        (((leaf_mode_allows c acc pte && allows c acc pte) && true)
          && phys_ok (leaf_pa undef va pte 0) 1)
        (leaf_pa undef va pte 0) pa c (tlb_insert c va pte c.asid) c' h in
    let (p, q) =
      both (leaf_mode_allows c acc pte) (allows c acc pte) true (phys_ok (leaf_pa undef va pte 0) 1)
        g in
    rw (← i, ← e, tlb_lookup-tlb_insert c va va pte acc c.asid none_matches refl)
      (hit_lem undef c va pte acc c.asid mask clear (granted c acc pte v p q))
