-- ===== src/Elf/Bare/Placed.antt =====
-- src/elf_load.c, `load_elf32_bare`: what the memory holds after the loader has returned 0.
use risc_v_emulator.Prelude.{
  ℕ, zero, suc, ◌+◌, ◌-◌, ◌^◌, ◌≤◌, ◌<◌, ◌≡◌, ◌⊎◌, inl, inr, refl, arith, ap, sym, ◌∙◌, Bool, true,
  false, ◌==◌, ◌||◌, ltb, if◌then◌else◌, Bool-cases, Option, none, some, sub64,
}
use risc_v_emulator.Cpu.{Cpu}
use risc_v_emulator.Elf.{File, Ehdr, Phdr, put_segment, pt_load}
use risc_v_emulator.Elf.Segment.{extent, put_segment_outside, put_segment_inside}
use risc_v_emulator.Elf.Bare.{
  header32_at, scan_loop, dest_of, does_not_fit, is_short, place_segment, place_loop, place_all,
  load_file32, load_elf32_bare, is_accepted32, set_start,
}

-- Where a segment goes in the memory that begins at `mem_base`.
abbrev pub offset_of : ℕ → ℕ → Phdr → ℕ
offset_of mem_base bias ph = dest_of bias ph - mem_base

-- The program header `j` is that of a segment to load.
pub record IsListed (f : File) (eh : Ehdr) (j : ℕ) (ph : Phdr) : Type 0 where
  pub found : header32_at f eh j ≡ some ph
  pub taken : (ph.p_type == pt_load) ≡ true

-- The segment of the round `j` does not cover the byte `a`.
unfoldable pub StaysClear : File → Ehdr → ℕ → ℕ → ℕ → ℕ → Type 0
StaysClear f eh mem_base bias a j =
    (ph : Phdr)
    → IsListed f eh j ph
    → (a < offset_of mem_base bias ph) ⊎ (offset_of mem_base bias ph + extent ph ≤ a)

-- A round that goes on has put its segment into the memory, whole.
placed :
    (f : File) (mem_size mem_base bias : ℕ) (ph : Phdr) (mem : ℕ → ℕ)
    → (place_segment f mem_size mem_base bias (some ph) mem).0 ≡ true
    → (ph.p_type == pt_load) ≡ true
    → ((place_segment f mem_size mem_base bias (some ph) mem).1
        ≡ put_segment f (offset_of mem_base bias ph) ph mem)
      × (is_short f ph ≡ false)
unfolding place_segment
placed f mem_size mem_base bias ph mem go t =
    let r = place_segment f mem_size mem_base bias (some ph) mem in
    elim (Bool-cases (does_not_fit mem_size mem_base (dest_of bias ph) ph)) [
      | inl n ↦ let stopped : r.0 ≡ false = rw (t, n) refl in cc
      | inr n ↦ elim (Bool-cases (is_short f ph)) [
        | inl k ↦ let stopped : r.0 ≡ false = rw (t, n, k) refl in cc
        | inr k ↦ (rw (t, n, k) refl, k)
      ]
    ]

-- A segment that is not loaded changes nothing.
skipped :
    (f : File) (mem_size mem_base bias : ℕ) (ph : Phdr) (mem : ℕ → ℕ)
    → (ph.p_type == pt_load) ≡ false
    → (place_segment f mem_size mem_base bias (some ph) mem).1 ≡ mem
unfolding place_segment
skipped f mem_size mem_base bias ph mem t = rw t refl

place_segment_avoids :
    (f : File) (eh : Ehdr) (mem_size mem_base bias a i : ℕ) (o : Option Phdr) (mem : ℕ → ℕ)
    → header32_at f eh i ≡ o
    → (place_segment f mem_size mem_base bias o mem).0 ≡ true
    → StaysClear f eh mem_base bias a i
    → (place_segment f mem_size mem_base bias o mem).1 a ≡ mem a
unfolding StaysClear place_segment
place_segment_avoids f eh mem_size mem_base bias a i none mem e go h = refl
place_segment_avoids f eh mem_size mem_base bias a i (some ph) mem e go h =
    elim (Bool-cases (ph.p_type == pt_load)) [
      | inl t ↦
          ap (λ (m : ℕ → ℕ). m a) ((placed f mem_size mem_base bias ph mem go t).0)
          ∙ put_segment_outside f (offset_of mem_base bias ph) ph mem a
              (h ph (record { found = e; taken = t }))
      | inr t ↦ ap (λ (m : ℕ → ℕ). m a) (skipped f mem_size mem_base bias ph mem t)
    ]

-- A loop that ends well has had a first round that went on, and a rest that ended well.
both_rounds :
    (r rest : Bool × (ℕ → ℕ))
    → (if r.0 then rest else r).0 ≡ true
    → (r.0 ≡ true) × (rest.0 ≡ true) × ((if r.0 then rest else r) ≡ rest)
both_rounds (true, m) rest e = (refl, e, refl)
both_rounds (false, m) rest e = absurd cc

place_loop_avoids :
    (f : File) (eh : Ehdr) (mem_size mem_base bias a left i : ℕ) (mem : ℕ → ℕ)
    → ((l : ℕ) → i ≤ l → l < i + left → StaysClear f eh mem_base bias a l)
    → (place_loop f eh mem_size mem_base bias left i mem).0 ≡ true
    → (place_loop f eh mem_size mem_base bias left i mem).1 a ≡ mem a
unfolding place_loop
place_loop_avoids f eh mem_size mem_base bias a zero i mem c go = refl
place_loop_avoids f eh mem_size mem_base bias a (suc left) i mem c go =
    let r = place_segment f mem_size mem_base bias (header32_at f eh i) mem in
    let rest = place_loop f eh mem_size mem_base bias left (i + 1) (r.1) in
    let s = both_rounds r rest go in
    ap (λ (p : Bool × (ℕ → ℕ)). p.1 a) (s.2)
    ∙ place_loop_avoids f eh mem_size mem_base bias a left (i + 1) (r.1)
        (λ l p q. c l (omega arith) (omega arith)) (s.1)
    ∙ place_segment_avoids f eh mem_size mem_base bias a i (header32_at f eh i) mem refl (s.0)
        (c i (omega arith) (omega arith))

-- The segment of the program header `j` is in the memory, where those after it stay clear.
place_loop_placed :
    (f : File) (eh : Ehdr) (mem_size mem_base bias j k left i : ℕ) (ph : Phdr) (mem : ℕ → ℕ)
    → i ≤ j
    → j < i + left
    → IsListed f eh j ph
    → k < extent ph
    → ((l : ℕ)
        → j < l
        → l < i + left
        → StaysClear f eh mem_base bias (offset_of mem_base bias ph + k) l)
    → (place_loop f eh mem_size mem_base bias left i mem).0 ≡ true
    → (place_loop f eh mem_size mem_base bias left i mem).1 (offset_of mem_base bias ph + k)
      ≡ (if ltb k ph.p_filesz then f.content (ph.p_offset + k) else 0)
unfolding place_loop
place_loop_placed f eh mem_size mem_base bias j k zero i ph mem a b g h c go = absurd (omega arith)
place_loop_placed f eh mem_size mem_base bias j k (suc left) i ph mem a b g h c go =
    let r = place_segment f mem_size mem_base bias (header32_at f eh i) mem in
    let rest = place_loop f eh mem_size mem_base bias left (i + 1) (r.1) in
    let s = both_rounds r rest go in
    let at_byte = offset_of mem_base bias ph + k in
    ap (λ (p : Bool × (ℕ → ℕ)). p.1 at_byte) (s.2) ∙ elim (Bool-cases (ltb i j)) [
      | inl later ↦
          place_loop_placed f eh mem_size mem_base bias j k left (i + 1) ph (r.1) (ground arith)
            (omega arith) g h (λ l p q. c l p (omega arith)) (s.1)
      | inr same ↦
          let here : header32_at f eh i ≡ some ph =
            ap (header32_at f eh) (ground arith) ∙ g.found in
          let round = ap (λ o. place_segment f mem_size mem_base bias o mem) here in
          let put =
            placed f mem_size mem_base bias ph mem
              (sym (ap (λ (p : Bool × (ℕ → ℕ)). p.0) round) ∙ s.0) g.taken in
          let whole = put.1 in
          place_loop_avoids f eh mem_size mem_base bias at_byte left (i + 1) (r.1)
            (λ l p q. c l (ground arith) (omega arith)) (s.1)
          ∙ ap (λ (p : Bool × (ℕ → ℕ)). p.1 at_byte) round
          ∙ ap (λ (m : ℕ → ℕ). m at_byte) (put.0)
          ∙ put_segment_inside f (offset_of mem_base bias ph) ph mem k (ground arith) h
    ]

-- A run that gets to its end has passed the checks and both loops.
all_done :
    (f : File) (eh : Ehdr) (mem_size mem_base : ℕ) (r : ℕ × ℕ) (mem : ℕ → ℕ) (c : Cpu)
    → scan_loop f eh eh.e_phnum 0 (2 ^ 32 - 1, 0) ≡ some r
    → (load_file32 f (some eh) mem_size mem_base (mem, c)).0 ≡ true
    → ((place_loop f eh mem_size mem_base (sub64 mem_base (r.0)) eh.e_phnum 0 mem).0 ≡ true)
      × (load_file32 f (some eh) mem_size mem_base (mem, c) ≡ (
        true,
        (place_loop f eh mem_size mem_base (sub64 mem_base (r.0)) eh.e_phnum 0 mem).1,
        set_start eh mem_size mem_base (sub64 mem_base (r.0)) c,
      ))
unfolding load_file32 place_all
all_done f eh mem_size mem_base r mem c e go =
    let bias = sub64 mem_base (r.0) in
    let loop = place_loop f eh mem_size mem_base bias eh.e_phnum 0 mem in
    let out = load_file32 f (some eh) mem_size mem_base (mem, c) in
    elim (Bool-cases (is_accepted32 eh)) [
      | inr t ↦ let stopped : out.0 ≡ false = rw t refl in absurd cc
      | inl t ↦ elim (Bool-cases (r.0 == 2 ^ 32 - 1 || ltb mem_size (sub64 (r.1) (r.0)))) [
        | inl n ↦ let stopped : out.0 ≡ false = rw (t, e, n) refl in absurd cc
        | inr n ↦ elim (Bool-cases (loop.0)) [
          | inl l ↦ (l, rw (t, e, n, l) refl)
          | inr l ↦ let stopped : out.0 ≡ false = rw (t, e, n, l) refl in absurd cc
        ]
      ]
    ]

-- What a run that returns 0 has done, by the result of the first loop.
pub load_placed :
    (f : File) (eh : Ehdr) (mem_size mem_base j k : ℕ) (r : ℕ × ℕ) (ph : Phdr) (mem : ℕ → ℕ)
    (c : Cpu)
    → f.header ≡ some eh
    → scan_loop f eh eh.e_phnum 0 (2 ^ 32 - 1, 0) ≡ some r
    → IsListed f eh j ph
    → j < eh.e_phnum
    → k < extent ph
    → ((l : ℕ)
        → j < l
        → l < eh.e_phnum
        → StaysClear f eh mem_base
            (sub64 mem_base (r.0))
            (offset_of mem_base (sub64 mem_base (r.0)) ph + k)
            l)
    → (load_elf32_bare (some f) mem_size mem_base (mem, c)).0 ≡ true
    → ((load_elf32_bare (some f) mem_size mem_base (mem, c)).1
          (offset_of mem_base (sub64 mem_base (r.0)) ph + k)
        ≡ (if ltb k ph.p_filesz then f.content (ph.p_offset + k) else 0))
      × ((load_elf32_bare (some f) mem_size mem_base (mem, c)).2
          ≡ set_start eh mem_size mem_base (sub64 mem_base (r.0)) c)
unfolding load_elf32_bare
load_placed f eh mem_size mem_base j k r ph mem c e s g b h clear go =
    let bias = sub64 mem_base (r.0) in
    let at_byte = offset_of mem_base bias ph + k in
    let file = ap (λ o. load_file32 f o mem_size mem_base (mem, c)) e in
    let done =
      all_done f eh mem_size mem_base r mem c s
        (sym (ap (λ (o : Bool × (ℕ → ℕ) × Cpu). o.0) file) ∙ go) in
    let whole = file ∙ done.1 in
    (
      ap (λ (o : Bool × (ℕ → ℕ) × Cpu). o.1 at_byte) whole
          ∙ place_loop_placed f eh mem_size mem_base bias j k eh.e_phnum 0 ph mem (omega arith)
              (omega arith) g h (λ l p q. clear l p (omega arith)) (done.0),
      ap (λ (o : Bool × (ℕ → ℕ) × Cpu). o.2) whole,
    )
