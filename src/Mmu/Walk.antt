-- ===== src/Mmu/Walk.antt =====
-- src/mmu.c: the Sv39 page walk `sv39_translate`, and `get_pa`, which looks in the TLB first.
use risc_v_emulator.Prelude.{ℕ, zero, suc, ◌+◌, ◌*◌, ◌/◌, ◌%◌, ◌^◌, Bool, true, false, ◌&&◌, ◌||◌}
use risc_v_emulator.Prelude.{
  not, if◌then◌else◌, ◌==◌, ltb, add64, bits, bit, bit_and, bit_or, u64, List, Option, none, some,
}
use risc_v_emulator.Cpu.{Cpu, MemFault, csr_satp}
use risc_v_emulator.Machine.{Machine, Region, Undefined, set_cpu, memory_base, memory_size}
use risc_v_emulator.Bus.{bus_read}
use risc_v_emulator.Mmu.Tlb.{
  Access, fetch, load, store, TlbResult, ok, miss, fault, allows, tlb_lookup, tlb_insert,
}

-- The walk's checks on the mode: S mode needs SUM for a user page and never fetches from one.
abbrev pub leaf_mode_allows : Cpu → Access → ℕ → Bool
leaf_mode_allows c acc pte =
    if c.privilege == 0
    then bit pte 4
    else if c.privilege == 1
    then not (bit pte 4)
      || (not (c.sum == 0) && elim acc [ fetch ↦ false | load ↦ true | store ↦ true ])
    else true

-- Valid, and not writable without being readable.
abbrev pub pte_is_valid : ℕ → Bool
pte_is_valid pte = bit pte 0 && not (bit pte 2 && not (bit pte 1))

abbrev pub pte_is_leaf : ℕ → Bool
pte_is_leaf pte = (bit pte 1 || bit pte 3) || bit pte 2

-- A superpage at level `i` has the low `9 * i` bits of its page number clear.
abbrev pub is_aligned : ℕ → ℕ → Bool
is_aligned zero pte = true
is_aligned (suc i) pte = bits pte 10 44 % 2 ^ (9 * suc i) == 0

-- The physical address of a leaf. Only level 0 computes one; the two superpage levels leave 0.
abbrev pub leaf_pa : Undefined → ℕ → ℕ → ℕ → ℕ
leaf_pa undef va pte zero =
    bit_or (u64 (bit_and (pte / 2 ^ 10) undef.ppn_mask * 2 ^ 12)) (va % 2 ^ 12)
leaf_pa undef va pte (suc i) = 0

-- `phys_ok(pa, len)`.
abbrev pub phys_ok : ℕ → ℕ → Bool
phys_ok pa len = not (ltb (memory_base + memory_size) (add64 pa len))

-- What a leaf at level `i` gives: the address, after its entry went into the TLB.
unfoldable pub leaf_result : Undefined → Cpu → ℕ → Access → ℕ → ℕ → Option ℕ × Cpu
leaf_result undef c va acc i pte =
    let pa = leaf_pa undef va pte i in
    if ((leaf_mode_allows c acc pte && allows c acc pte) && is_aligned i pte) && phys_ok pa 1
    then (some pa, tlb_insert c va pte c.asid)
    else (none, c)

module _ {D : Type 0} where
  -- `handle_fault`: the record of the fault, by the numbers of `ACC_…` and `FaultType`.
  unfoldable pub handle_fault : Machine D → ℕ → Access → Machine D
  handle_fault m va acc =
      let code : ℕ = elim acc [ fetch ↦ 0 | load ↦ 1 | store ↦ 2 ] in
      let f : MemFault = record { valid = true; acc_type = code; cause = code + 1; vaddr = va } in
      set_cpu m (let c = m.cpu in record c { mem_fault = f })

  -- A page fault gives the physical address 0.
  abbrev pub after_walk : ℕ → Access → Option ℕ × Machine D → ℕ × Machine D
  after_walk va acc (some pa, m) = (pa, m)
  after_walk va acc (none, m) = (0, handle_fault m va acc)

  -- A hit gives its address, a refused one a fault; the walk is made after a miss.
  abbrev pub after_lookup : ℕ → Access → TlbResult → Machine D → ℕ × Machine D → ℕ × Machine D
  after_lookup va acc (ok pa) m walked = (pa, m)
  after_lookup va acc fault m walked = (0, handle_fault m va acc)
  after_lookup va acc miss m walked = walked

module _ {D : Type 0} (undef : Undefined) (bus : List (Region D)) where
  -- One round of the loop at level `i` with the table at `table_addr`: a pointer to a lower
  -- table goes on with `descend`. `none` is a page fault.
  unfoldable pub visit :
      ℕ → Access → ℕ → ℕ → (ℕ → Machine D → Option ℕ × Machine D) → Machine D → Option ℕ × Machine D
  visit va acc i table_addr descend m =
      let (pte, m₁) = bus_read undef bus (add64 (bits va (12 + 9 * i) 9 * 8) table_addr) 8 m in
      let (r, c) = leaf_result undef m₁.cpu va acc i pte in
      let below = descend (u64 (bit_and (pte / 2 ^ 10) undef.ppn_mask * 2 ^ 12)) m₁ in
      if not (pte_is_valid pte)
      then (none, m₁)
      else if pte_is_leaf pte
      then (r, set_cpu m₁ c)
      else below

  unfoldable pub walk : ℕ → Access → ℕ → ℕ → Machine D → Option ℕ × Machine D
  walk va acc zero table_addr m = visit va acc 0 table_addr (λ t m₁. (none, m₁)) m
  walk va acc (suc i) table_addr m = visit va acc (suc i) table_addr (λ t m₁. walk va acc i t m₁) m

  unfoldable pub sv39_translate : ℕ → Access → Machine D → Option ℕ × Machine D
  unfolding walk
  sv39_translate va acc m =
      let satp = m.cpu.csr csr_satp in
      let m₁ = set_cpu m (let c = m.cpu in record c { satp = satp }) in
      if satp / 2 ^ 60 == 8 then walk va acc 2 (bits satp 0 44 * 2 ^ 12) m₁ else (some va, m₁)

  unfoldable pub get_pa : ℕ → Access → Machine D → ℕ × Machine D
  get_pa va acc m =
      let (found, c) = tlb_lookup m.cpu va acc m.cpu.asid in
      let m₁ = set_cpu m c in
      let walked = sv39_translate va acc m₁ in
      if bits (m.cpu.csr csr_satp) 60 4 == 0
      then (va, m)
      else after_lookup va acc found m₁ (after_walk va acc walked)
