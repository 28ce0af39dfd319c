-- ===== src/Elf/Segment.antt =====
-- src/elf_load.c: what one segment, and the loop over all of them, do to a byte of the RAM.
use risc_v_emulator.Prelude.{
  ℕ, zero, suc, ◌+◌, ◌-◌, ◌≤◌, ◌<◌, ◌≡◌, ◌⊎◌, inl, inr, refl, arith, ◌∙◌, true, ltb, if◌then◌else◌,
  Bool-cases, Option, none, some,
}
use risc_v_emulator.Machine.{memory_base}
use risc_v_emulator.Elf.{
  File, Ehdr, Phdr, fread_into, zero_fill, put_segment, loads, phys_addr, load_segment, load_loop,
  header_at,
}

-- The bytes that a segment covers: those of the file, or its size in memory if that is more.
abbrev pub extent : Phdr → ℕ
extent ph = if ltb ph.p_filesz ph.p_memsz then ph.p_memsz else ph.p_filesz

-- A byte that the segment does not cover.
pub put_segment_outside :
    (f : File) (dst : ℕ) (ph : Phdr) (mem : ℕ → ℕ) (a : ℕ)
    → (a < dst) ⊎ (dst + extent ph ≤ a)
    → put_segment f dst ph mem a ≡ mem a
unfolding put_segment fread_into zero_fill
put_segment_outside f dst ph mem a h = ground arith

-- A byte that it covers, where the file has all of its bytes.
pub put_segment_inside :
    (f : File) (dst : ℕ) (ph : Phdr) (mem : ℕ → ℕ) (k : ℕ)
    → ph.p_filesz ≤ f.length - ph.p_offset
    → k < extent ph
    → put_segment f dst ph mem (dst + k)
      ≡ (if ltb k ph.p_filesz then f.content (ph.p_offset + k) else 0)
unfolding put_segment fread_into zero_fill
put_segment_inside f dst ph mem k l h =
    let back : dst + k - dst ≡ k = omega arith in ground (arith, back)

-- A program header that is there and whose segment is loaded.
pub record IsLoaded (f : File) (eh : Ehdr) (j : ℕ) (ph : Phdr) : Type 0 where
  pub found : header_at f eh j ≡ some ph
  pub taken : loads eh ph ≡ true

-- The segment of a round does not cover the byte.
unfoldable pub Avoids : File → Ehdr → ℕ → ℕ → Type 0
Avoids f eh a j =
    (ph : Phdr)
    → IsLoaded f eh j ph
    → (a < phys_addr eh ph - memory_base) ⊎ (phys_addr eh ph - memory_base + extent ph ≤ a)

load_segment-Avoids :
    (f : File) (eh : Ehdr) (a j n : ℕ) (mem : ℕ → ℕ) (o : Option Phdr)
    → header_at f eh j ≡ o
    → Avoids f eh a j
    → (load_segment f eh o (n, mem)).1 a ≡ mem a
unfolding load_segment Avoids
load_segment-Avoids f eh a j n mem none e h = refl
load_segment-Avoids f eh a j n mem (some ph) e h = elim (Bool-cases (loads eh ph)) [
  | inl t ↦ rw t (
      put_segment_outside f (phys_addr eh ph - memory_base) ph mem a
        (h ph (record { found = e; taken = t })))
  | inr t ↦ rw t refl
]

-- A byte that no segment of the loop covers.
pub load_loop-Avoids :
    (f : File) (eh : Ehdr) (a left i : ℕ) (st : ℕ × (ℕ → ℕ))
    → ((j : ℕ) → i ≤ j → j < i + left → Avoids f eh a j)
    → (load_loop f eh left i st).1 a ≡ st.1 a
unfolding load_loop
load_loop-Avoids f eh a zero i st h = refl
load_loop-Avoids f eh a (suc left) i st h =
    load_loop-Avoids f eh a left (i + 1) _ (λ j lo hi. h j (omega arith) (omega arith))
    ∙ load_segment-Avoids f eh a i (st.0) (st.1) (header_at f eh i) refl
        (h i (omega arith) (omega arith))

-- A loop in two parts.
pub load_loop_split :
    (f : File) (eh : Ehdr) (m n i : ℕ) (st : ℕ × (ℕ → ℕ))
    → load_loop f eh (m + n) i st ≡ load_loop f eh n (i + m) (load_loop f eh m i st)
unfolding load_loop
load_loop_split f eh zero n i st =
    let same : 0 + n ≡ n = omega arith in let here : i + 0 ≡ i = omega arith in rw (same, here) refl
load_loop_split f eh (suc m) n i st =
    let one_more : suc m + n ≡ suc (m + n) = omega arith in
    let further : i + suc m ≡ i + 1 + m = omega arith in
    rw (one_more, further)
      (load_loop_split f eh m n (i + 1) (load_segment f eh (header_at f eh i) st))

load_segment_bytes :
    (f : File) (eh : Ehdr) (o : Option Phdr) (st : ℕ × (ℕ → ℕ)) (a : ℕ)
    → ((j : ℕ) → f.content j < 256)
    → ((j : ℕ) → st.1 j < 256)
    → (load_segment f eh o st).1 a < 256
unfolding load_segment put_segment fread_into zero_fill
load_segment_bytes f eh none st a c h = h a
load_segment_bytes f eh (some ph) st a c h =
    let dst = phys_addr eh ph - memory_base in
    let content = c (ph.p_offset + (a - dst)) in
    let old = h a in
    elim (Bool-cases (loads eh ph)) [ inl t ↦ rw t (ground arith) | inr t ↦ rw t old ]

-- The loop leaves bytes.
pub load_loop_bytes :
    (f : File) (eh : Ehdr) (left i : ℕ) (st : ℕ × (ℕ → ℕ))
    → ((j : ℕ) → f.content j < 256)
    → ((j : ℕ) → st.1 j < 256)
    → (a : ℕ) → (load_loop f eh left i st).1 a < 256
unfolding load_loop
load_loop_bytes f eh zero i st c h a = h a
load_loop_bytes f eh (suc left) i st c h a =
    load_loop_bytes f eh left (i + 1) _ c (λ j. load_segment_bytes f eh (header_at f eh i) st j c h)
      a
