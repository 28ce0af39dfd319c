-- ===== src/Elf/Bare/Image.antt =====
-- src/elf_load.c, `load_elf32_bare`: the program in the memory and the hart that starts it.
use risc_v_emulator.Prelude.{
  ℕ, zero, suc, ◌+◌, ◌-◌, ◌*◌, ◌/◌, ◌%◌, ◌^◌, ◌≤◌, ◌<◌, ◌≡◌, ◌⊎◌, inl, inr, refl, arith, ap, sym,
  ◌∙◌, Bool, true, false, ◌==◌, ltb, if◌then◌else◌, Bool-cases, Option, none, some, some-injective,
  ◌>>=◌, sub64, update,
}
use risc_v_emulator.Cpu.{Cpu}
use risc_v_emulator.Elf.{File, Ehdr, Phdr, pt_load}
use risc_v_emulator.Elf.Segment.{extent}
use risc_v_emulator.Elf.Bare.{
  header32_at, seg_end, scan_segment, scan_loop, place_all, load_file32, load_elf32_bare,
  is_accepted32, set_start,
}
use risc_v_emulator.Elf.Bare.Bounds.{IsLowest, IsFound, scan_loop-IsFound}
use risc_v_emulator.Elf.Bare.Placed.{IsListed, StaysClear, offset_of, load_placed}

-- The lowest address among those of the segments to load.
pub record IsLeast (f : File) (eh : Ehdr) (low : ℕ) : Type 0 where
  pub index : ℕ
  pub header : Phdr
  pub among : index < eh.e_phnum
  pub listed : IsListed f eh index header
  pub attained : header.p_vaddr ≡ low
  pub least : (j : ℕ) (ph : Phdr) → j < eh.e_phnum → IsListed f eh j ph → low ≤ ph.p_vaddr

-- The first loop ends at its start value or at the address of a segment to load.
Attained : File → Ehdr → ℕ → ℕ → ℕ → ℕ → Type 0
Attained f eh i left start low =
    (low ≡ start)
    ⊎ ((j : ℕ) × (ph : Phdr) × (j < i + left) × IsListed f eh j ph × (ph.p_vaddr ≡ low))

later_round :
    (f : File) (eh : Ehdr) (i left start start' low : ℕ)
    → (start' ≡ start) ⊎ ((ph : Phdr) × IsListed f eh i ph × (ph.p_vaddr ≡ start'))
    → Attained f eh (i + 1) left start' low
    → Attained f eh i (suc left) start low
unfolding Attained
later_round f eh i left start start' low h (inr (j, ph, p, l, e)) = inr (j, ph, omega arith, l, e)
later_round f eh i left start start' low (inl h) (inl e) = inl (e ∙ h)
later_round f eh i left start start' low (inr (ph, l, h)) (inl e) =
    inr (i, ph, omega arith, l, h ∙ sym e)

first_round :
    (f : File) (eh : Ehdr) (i : ℕ) (s t : ℕ × ℕ) (o : Option Phdr)
    → header32_at f eh i ≡ o
    → scan_segment o s ≡ some t
    → ((t.0) ≡ s.0) ⊎ ((ph : Phdr) × IsListed f eh i ph × (ph.p_vaddr ≡ t.0))
unfolding scan_segment
first_round f eh i s t none e g = absurd cc
first_round f eh i s t (some ph) e g = elim (Bool-cases (ph.p_type == pt_load)) [
  | inr n ↦
      let same : scan_segment (some ph) s ≡ some s = rw n refl in
      inl (ap (λ (x : ℕ × ℕ). x.0) (some-injective t s (sym g ∙ same)))
  | inl y ↦
      let high = if ltb (s.1) (seg_end ph) then seg_end ph else s.1 in
      elim (Bool-cases (ltb ph.p_vaddr (s.0))) [
        | inl l ↦
            let same : scan_segment (some ph) s ≡ some (ph.p_vaddr, high) = rw (y, l) refl in
            inr (
              ph,
              record { found = e; taken = y },
              ap (λ (x : ℕ × ℕ). x.0) (some-injective (ph.p_vaddr, high) t (sym same ∙ g)),
            )
        | inr l ↦
            let same : scan_segment (some ph) s ≡ some (s.0, high) = rw (y, l) refl in
            inl (ap (λ (x : ℕ × ℕ). x.0) (some-injective t (s.0, high) (sym g ∙ same)))
      ]
]

-- The parts of a chain that gives a result.
chained :
    (o : Option (ℕ × ℕ)) (g : ℕ × ℕ → Option (ℕ × ℕ)) (r : ℕ × ℕ)
    → (o >>= g) ≡ some r
    → (t : ℕ × ℕ) × (o ≡ some t) × (g t ≡ some r)
chained none g r e = absurd cc
chained (some t) g r e = (t, refl, e)

scan_loop-Attained :
    (f : File) (eh : Ehdr) (left i : ℕ) (s r : ℕ × ℕ)
    → scan_loop f eh left i s ≡ some r
    → Attained f eh i left (s.0) (r.0)
unfolding scan_loop Attained
scan_loop-Attained f eh zero i s r e = inl (ap (λ (x : ℕ × ℕ). x.0) (some-injective r s (sym e)))
scan_loop-Attained f eh (suc left) i s r e =
    let (t, a, b) =
      chained (scan_segment (header32_at f eh i) s) (λ t. scan_loop f eh left (i + 1) t) r e in
    later_round f eh i left (s.0) (t.0) (r.0) (first_round f eh i s t (header32_at f eh i) refl a)
      (scan_loop-Attained f eh left (i + 1) t r b)

-- A run that returns 0 has found a segment to load.
placed_some :
    (f : File) (eh : Ehdr) (mem_size mem_base : ℕ) (o : Option (ℕ × ℕ)) (mem : ℕ → ℕ) (c : Cpu)
    → (place_all f eh mem_size mem_base o (mem, c)).0 ≡ true
    → (r : ℕ × ℕ) × (o ≡ some r) × ((r.0 == 2 ^ 32 - 1) ≡ false)
unfolding place_all
placed_some f eh mem_size mem_base none mem c go = absurd cc
placed_some f eh mem_size mem_base (some r) mem c go = elim (Bool-cases (r.0 == 2 ^ 32 - 1)) [
  | inr n ↦ (r, refl, n)
  | inl y ↦
      let stopped : (place_all f eh mem_size mem_base (some r) (mem, c)).0 ≡ false = rw y refl in
      absurd cc
]

scanned :
    (f : File) (eh : Ehdr) (mem_size mem_base : ℕ) (mem : ℕ → ℕ) (c : Cpu)
    → (load_file32 f (some eh) mem_size mem_base (mem, c)).0 ≡ true
    → (r : ℕ × ℕ) × (scan_loop f eh eh.e_phnum 0 (2 ^ 32 - 1, 0) ≡ some r)
      × ((r.0 == 2 ^ 32 - 1) ≡ false)
unfolding load_file32
scanned f eh mem_size mem_base mem c go = elim (Bool-cases (is_accepted32 eh)) [
  | inr n ↦
      let stopped : (load_file32 f (some eh) mem_size mem_base (mem, c)).0 ≡ false = rw n refl in
      absurd cc
  | inl y ↦
      let scan = scan_loop f eh eh.e_phnum 0 (2 ^ 32 - 1, 0) in
      let same : (load_file32 f (some eh) mem_size mem_base (mem, c)).0
          ≡ (place_all f eh mem_size mem_base scan (mem, c)).0 =
        rw y refl in
      placed_some f eh mem_size mem_base scan mem c (sym same ∙ go)
]

found_below :
    (f : File) (eh : Ehdr) (r : ℕ × ℕ) (o : Option (ℕ × ℕ))
    → o ≡ some r
    → IsFound f eh (2 ^ 32 - 1) 0 eh.e_phnum o
    → (j : ℕ) (ph : Phdr) → j < eh.e_phnum
    → IsListed f eh j ph
    → r.0 ≤ ph.p_vaddr
unfolding IsFound IsLowest
found_below f eh r none e h j ph p l = absurd cc
found_below f eh r (some s) e h j ph p l =
    let same : s.0 ≡ r.0 = ap (λ (x : ℕ × ℕ). x.0) (some-injective s r e) in
    let low = h.1 j ph (omega arith) (omega arith) l.found l.taken in omega arith

-- The first loop finds the lowest address.
scan_loop-IsLeast :
    (f : File) (eh : Ehdr) (low : ℕ) (r : ℕ × ℕ)
    → scan_loop f eh eh.e_phnum 0 (2 ^ 32 - 1, 0) ≡ some r
    → (r.0 == 2 ^ 32 - 1) ≡ false
    → IsLeast f eh low
    → r.0 ≡ low
unfolding Attained
scan_loop-IsLeast f eh low r e n h =
    let under =
      found_below f eh r _ e (scan_loop-IsFound f eh eh.e_phnum 0 (2 ^ 32 - 1, 0)) h.index h.header
        h.among h.listed in
    let at_least : r.0 ≤ low = omega (arith, under, h.attained) in
    elim (scan_loop-Attained f eh eh.e_phnum 0 (2 ^ 32 - 1, 0) r e) [
      | inl z ↦ absurd (ground arith)
      | inr (j, ph, p, l, same) ↦
          let over = h.least j ph (omega arith) l in omega (arith, over, same, at_least)
    ]

-- Where a segment goes: as far from the start of the memory as from the lowest address.
offset_lem :
    (mem_base low : ℕ) (ph : Phdr)
    → mem_base < 2 ^ 32
    → low ≤ ph.p_vaddr
    → ph.p_vaddr < 2 ^ 32
    → offset_of mem_base (sub64 mem_base low) ph ≡ ph.p_vaddr - low
offset_lem mem_base low ph h k l = omega arith

set_start_lem :
    (eh : Ehdr) (mem_size mem_base low : ℕ) (c : Cpu)
    → mem_base < 2 ^ 32
    → low < 2 ^ 32
    → set_start eh mem_size mem_base (sub64 mem_base low) c ≡ record c {
      gpr = update c.gpr 2 ((mem_base + mem_size) / 16 * 16 % 2 ^ 32);
      pc = (eh.e_entry + mem_base + 2 ^ 32 - low) % 2 ^ 32;
    }
set_start_lem eh mem_size mem_base low c h k =
    let sp : (let s = (mem_base + mem_size) % 2 ^ 64 in (s - s % 16) % 2 ^ 32)
        ≡ (mem_base + mem_size) / 16 * 16 % 2 ^ 32 =
      omega arith in
    let pc : (eh.e_entry + sub64 mem_base low) % 2 ^ 64 % 2 ^ 32
        ≡ (eh.e_entry + mem_base + 2 ^ 32 - low) % 2 ^ 32 =
      omega arith in
    ap
      (λ (v : ℕ). record c {
        gpr = update c.gpr 2 v;
        pc = (eh.e_entry + sub64 mem_base low) % 2 ^ 64 % 2 ^ 32;
      })
      sp
    ∙ ap
        (λ (v : ℕ). record c {
          gpr = update c.gpr 2 ((mem_base + mem_size) / 16 * 16 % 2 ^ 32);
          pc = v;
        })
        pc

-- When the loader returns 0, every segment to load is in the memory, as far from its start as the
-- segment's address is from the lowest of them all: the bytes of the file and zeros up to its size, as
-- far as no later segment covers them. The hart starts at the entry point, moved as well, in 32 bits,
-- its register 2 is the end of the memory, rounded down to 16 bytes, in 32 bits, and nothing else of
-- it changes. The memory begins below 2 ^ 32, and so do the segments.
pub load_elf32_bare_image :
    (f : File) (eh : Ehdr) (mem_size mem_base low j k : ℕ) (ph : Phdr) (mem : ℕ → ℕ) (c : Cpu)
    → f.header ≡ some eh
    → mem_base < 2 ^ 32
    → ((l : ℕ) (ph' : Phdr) → IsListed f eh l ph' → ph'.p_vaddr < 2 ^ 32)
    → IsLeast f eh low
    → IsListed f eh j ph
    → j < eh.e_phnum
    → k < extent ph
    → ((l : ℕ) (ph' : Phdr)
        → j < l
        → l < eh.e_phnum
        → IsListed f eh l ph'
        → (ph.p_vaddr + k < ph'.p_vaddr) ⊎ (ph'.p_vaddr + extent ph' ≤ ph.p_vaddr + k))
    → (load_elf32_bare (some f) mem_size mem_base (mem, c)).0 ≡ true
    → ((load_elf32_bare (some f) mem_size mem_base (mem, c)).1 (ph.p_vaddr - low + k)
        ≡ (if ltb k ph.p_filesz then f.content (ph.p_offset + k) else 0))
      × ((load_elf32_bare (some f) mem_size mem_base (mem, c)).2 ≡ record c {
        gpr = update c.gpr 2 ((mem_base + mem_size) / 16 * 16 % 2 ^ 32);
        pc = (eh.e_entry + mem_base + 2 ^ 32 - low) % 2 ^ 32;
      })
unfolding load_elf32_bare StaysClear
load_elf32_bare_image f eh mem_size mem_base low j k ph mem c e base small h g b q clear go =
    let file = ap (λ o. load_file32 f o mem_size mem_base (mem, c)) e in
    let success = sym (ap (λ (o : Bool × (ℕ → ℕ) × Cpu). o.0) file) ∙ go in
    let (r, s, n) = scanned f eh mem_size mem_base mem c success in
    let at_low : r.0 ≡ low = scan_loop-IsLeast f eh low r s n h in
    let bias : sub64 mem_base (r.0) ≡ sub64 mem_base low = ap (sub64 mem_base) at_low in
    let offset : (l : ℕ) (ph' : Phdr)
        → l < eh.e_phnum
        → IsListed f eh l ph'
        → offset_of mem_base (sub64 mem_base (r.0)) ph' ≡ ph'.p_vaddr - low =
      λ l ph' p i.
        ap (λ (x : ℕ). offset_of mem_base x ph') bias
        ∙ offset_lem mem_base low ph' base (h.least l ph' p i) (small l ph' i) in
    let here = offset j ph b g in
    let above = h.least j ph b g in
    let (image, hart) =
      load_placed f eh mem_size mem_base j k r ph mem c e s g b q
        (λ l p p' ph' i.
          let there = offset l ph' p' i in
          let over = h.least l ph' p' i in
          elim (clear l ph' p p' i) [
            | inl x ↦ inl (omega (arith, here, there, over, above))
            | inr x ↦ inr (omega (arith, here, there, over, above))
          ])
        go in
    let first = small h.index h.header h.listed in
    (
      ap (λ (o : ℕ). (load_elf32_bare (some f) mem_size mem_base (mem, c)).1 (o + k)) (sym here)
          ∙ image,
      hart
          ∙ ap (λ (x : ℕ). set_start eh mem_size mem_base x c) bias
          ∙ set_start_lem eh mem_size mem_base low c base (omega (arith, first, h.attained)),
    )
