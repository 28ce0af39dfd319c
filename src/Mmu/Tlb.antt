-- ===== src/Mmu/Tlb.antt =====
-- src/mmu.c: the translation lookaside buffer, `tlb_check`, `tlb_lookup`, `tlb_insert`, `tlb_flush`.
use risc_v_emulator.Prelude.{ℕ, zero, suc, ◌+◌, ◌-◌, ◌*◌, ◌%◌, ◌^◌, Bool, true, false, ◌&&◌, ◌||◌}
use risc_v_emulator.Prelude.{
  not, if◌then◌else◌, ◌==◌, ltb, update, add64, bits, bit, set_bit, bit_or, u8, u64,
}
use risc_v_emulator.Cpu.{Cpu, TlbEntry}

-- `ACC_FETCH`, `ACC_LOAD`, `ACC_STORE`.
pub data Access : Type 0 where
  fetch load store : Access

-- `TLBResult`, with the physical address that `TLB_OK` leaves in `*pa`.
pub data TlbResult : Type 0 where
  ok : ℕ → TlbResult
  miss : TlbResult
  fault : TlbResult

-- `TLB_SIZE`.
abbrev pub tlb_size : ℕ
tlb_size = 64

-- The permission for a kind of access: X to fetch, R or (under MXR) X to load, W to store.
abbrev pub allows : Cpu → Access → ℕ → Bool
allows c fetch flags = bit flags 3
allows c load flags = bit flags 1 || (not (c.mxr == 0) && bit flags 3)
allows c store flags = bit flags 2

-- The mode's right to the page: U mode needs the U bit, S mode without SUM needs it clear.
abbrev pub mode_allows : Cpu → ℕ → Bool
mode_allows c flags =
    if c.privilege == 0
    then bit flags 4
    else if c.privilege == 1
    then not (c.sum == 0 && bit flags 4)
    else true

-- The updates of A and D.
abbrev pub touched : Access → ℕ → ℕ
touched store flags = set_bit (set_bit flags 6) 7
touched acc flags = set_bit flags 6

-- `tlb_check`: whether the access is granted.
unfoldable pub tlb_check : Cpu → Access → ℕ → Bool
tlb_check c acc flags = (bit flags 0 && mode_allows c flags) && allows c acc flags

-- The page number that a lookup compares.
abbrev pub vpn_of : ℕ → ℕ
vpn_of va = bits va 12 26

abbrev pub tag_of : ℕ → ℕ → ℕ
tag_of vpn asid = bit_or vpn (asid * 2 ^ 26)

-- A valid entry with the tag of the page; a global one matches at every asid.
unfoldable pub matches : TlbEntry → ℕ → ℕ → Bool
matches e vpn asid =
    e.valid && (if e.global then bits e.tag 0 26 == vpn else e.tag == tag_of vpn asid)

-- What a hit at entry `i` does.
unfoldable pub tlb_hit : Cpu → ℕ → Access → ℕ → TlbResult × Cpu
unfolding tlb_check
tlb_hit c va acc i =
    let e = c.tlb i in
    let granted = tlb_check c acc e.flags in
    let e' = record e {
      last_used = c.tlb_cnt;
      flags = if granted then touched acc e.flags else e.flags;
    } in
    (
      if granted then TlbResult.ok (bit_or (u64 (e.ppn * 2 ^ 12)) (va % 2 ^ 12)) else fault,
      record c { tlb = update c.tlb i e'; tlb_cnt = add64 c.tlb_cnt 1 },
    )

-- The first entry from `i` on that matches is a hit, with `left` entries to go.
unfoldable pub lookup_loop : Cpu → ℕ → Access → ℕ → ℕ → ℕ → TlbResult × Cpu
lookup_loop c va acc asid zero i = (miss, c)
lookup_loop c va acc asid (suc left) i =
    let rest = lookup_loop c va acc asid left (i + 1) in
    if matches (c.tlb i) (vpn_of va) asid then tlb_hit c va acc i else rest

unfoldable pub tlb_lookup : Cpu → ℕ → Access → ℕ → TlbResult × Cpu
tlb_lookup c va acc asid = lookup_loop c va acc asid tlb_size 0

-- The victim: the first invalid entry from 1 on; if there is none, the least recently used.
unfoldable pub victim_loop : (ℕ → TlbEntry) → ℕ → ℕ → ℕ → ℕ → ℕ
victim_loop tlb zero i replace_idx min_used = replace_idx
victim_loop tlb (suc left) i replace_idx min_used =
    let older = ltb (tlb i).last_used min_used in
    let rest =
      victim_loop tlb left (i + 1) (if older then i else replace_idx)
        (if older then (tlb i).last_used else min_used) in
    if not (tlb i).valid then i else rest

unfoldable pub victim : Cpu → ℕ
unfolding victim_loop
victim c = victim_loop c.tlb (tlb_size - 1) 1 0 (c.tlb 0).last_used

-- The flags of a page table entry that an entry keeps: all of the low eight but G.
abbrev pub flags_of : ℕ → ℕ
flags_of pte = bits pte 0 5 + bits pte 6 2 * 2 ^ 6

unfoldable pub new_entry : Cpu → ℕ → ℕ → ℕ → TlbEntry
new_entry c va pte asid = record {
  tag = if bit pte 5 then vpn_of va else tag_of (vpn_of va) asid;
  ppn = bits pte 10 44;
  flags = flags_of pte;
  valid = true;
  global = bit pte 5;
  asid = u8 asid;
  last_used = c.tlb_cnt;
}

unfoldable pub tlb_insert : Cpu → ℕ → ℕ → ℕ → Cpu
tlb_insert c va pte asid = record c {
  tlb = update c.tlb (victim c) (new_entry c va pte asid);
  tlb_cnt = add64 c.tlb_cnt 1;
}

-- `for (i = 0; i < TLB_SIZE; i++) entries[i].valid = 0`.
abbrev pub invalidate : (ℕ → TlbEntry) → ℕ → TlbEntry
invalidate tlb i = if ltb i tlb_size then (let e = tlb i in record e { valid = false }) else tlb i

unfoldable pub tlb_flush : Cpu → Cpu
tlb_flush c = record c { tlb = invalidate c.tlb; next_replace = 0 }
