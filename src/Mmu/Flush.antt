-- ===== src/Mmu/Flush.antt =====
-- src/mmu.c and `sfence.vma` of src/instructions.c: what the translation lookaside buffer holds
-- after an insertion and after a flush.
use risc_v_emulator.Prelude.{
  ℕ, zero, suc, ◌+◌, ◌-◌, ◌≤◌, ◌<◌, ◌≡◌, inl, inr, refl, arith, Bool-cases,
}
use risc_v_emulator.Prelude.{true, false, ◌==◌, ltb, ==_iff, if◌then◌else◌}
use risc_v_emulator.Cpu.{Cpu, TlbEntry}
use risc_v_emulator.Mmu.Tlb.{
  Access, miss, matches, tlb_hit, lookup_loop, tlb_lookup, tlb_flush, victim, victim_loop,
  invalidate, vpn_of, tlb_size,
}

-- A lookup misses where no entry of the range matches.
lookup_loop-miss :
    (c : Cpu) (va : ℕ) (acc : Access) (asid left i : ℕ)
    → ((j : ℕ) → i ≤ j → j < i + left → matches (c.tlb j) (vpn_of va) asid ≡ false)
    → lookup_loop c va acc asid left i ≡ (miss, c)
unfolding lookup_loop
lookup_loop-miss c va acc asid zero i h = refl
lookup_loop-miss c va acc asid (suc left) i h =
    rw (h i (omega arith) (omega arith))
      (lookup_loop-miss c va acc asid left (i + 1) (λ j p q. h j (omega arith) (omega arith)))

matches-invalidate :
    (tlb : ℕ → TlbEntry) (vpn asid j : ℕ)
    → j < tlb_size
    → matches (invalidate tlb j) vpn asid ≡ false
unfolding matches
matches-invalidate tlb vpn asid j h =
    let inside : ltb j tlb_size ≡ true = ground arith in rw inside refl

-- After a flush every lookup misses, of any address, kind of access and address space, and leaves
-- the hart as it is.
pub tlb_lookup-tlb_flush :
    (c : Cpu) (va : ℕ) (acc : Access) (asid : ℕ)
    → tlb_lookup (tlb_flush c) va acc asid ≡ (miss, tlb_flush c)
unfolding tlb_lookup tlb_flush
tlb_lookup-tlb_flush c va acc asid =
    lookup_loop-miss (tlb_flush c) va acc asid tlb_size 0
      (λ j p q. matches-invalidate c.tlb (vpn_of va) asid j (omega arith))

-- The first entry that matches decides.
pub lookup_loop-hit :
    (c : Cpu) (va : ℕ) (acc : Access) (asid left i k : ℕ)
    → i ≤ k
    → k < i + left
    → matches (c.tlb k) (vpn_of va) asid ≡ true
    → ((j : ℕ) → i ≤ j → j < k → matches (c.tlb j) (vpn_of va) asid ≡ false)
    → lookup_loop c va acc asid left i ≡ tlb_hit c va acc k
unfolding lookup_loop
lookup_loop-hit c va acc asid zero i k lo hi hit h = absurd (omega arith)
lookup_loop-hit c va acc asid (suc left) i k lo hi hit h = elim (Bool-cases (i == k)) [
  | inl e ↦ rw ((==_iff i k).0 e, hit) refl
  | inr e ↦ rw (h i (omega arith) (ground arith)) (
      lookup_loop-hit c va acc asid left (i + 1) k (ground arith) (omega arith) hit
        (λ j p q. h j (omega arith) q))
]

-- The victim is a place of the buffer.
victim_loop-lt :
    (tlb : ℕ → TlbEntry) (left i idx min : ℕ)
    → i + left ≤ tlb_size
    → idx < tlb_size
    → victim_loop tlb left i idx min < tlb_size
unfolding victim_loop
victim_loop-lt tlb zero i idx min p q = q
victim_loop-lt tlb (suc left) i idx min p q =
    let older = ltb (tlb i).last_used min in
    let next = if older then i else idx in
    let m = if older then (tlb i).last_used else min in
    elim (Bool-cases (tlb i).valid) [
      | inl e ↦ rw e (victim_loop-lt tlb left (i + 1) next m (omega arith) (ground arith))
      | inr e ↦ rw e (omega arith)
    ]

pub victim-lt : (c : Cpu) → victim c < tlb_size
unfolding victim
victim-lt c =
    victim_loop-lt c.tlb (tlb_size - 1) 1 0 (c.tlb 0).last_used (omega arith) (omega arith)
