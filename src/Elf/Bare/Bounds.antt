-- ===== src/Elf/Bare/Bounds.antt =====
-- src/elf_load.c, `load_elf32_bare`: the bytes that it writes.
use risc_v_emulator.Prelude.{
  ℕ, zero, suc, ◌+◌, ◌^◌, ◌≤◌, ◌<◌, ◌≡◌, inl, inr, refl, arith, ap, sym, ◌∙◌, true, ◌==◌, ltb,
  Bool-cases, Option, none, some, some-injective, ◌>>=◌,
}
use risc_v_emulator.Cpu.{Cpu}
use risc_v_emulator.Elf.{File, Ehdr, Phdr, pt_load}
use risc_v_emulator.Elf.Bare.{header32_at, scan_segment, scan_loop}

-- The fields of a program header have 32 bits, and no segment has more bytes than memory.
pub record IsSound32 (ph : Phdr) : Type 0 where
  pub vaddr : ph.p_vaddr < 2 ^ 32
  pub memsz : ph.p_memsz < 2 ^ 32
  pub filesz : ph.p_filesz ≤ ph.p_memsz

-- All segments to load from the header `i` on begin at `lo` or above.
unfoldable pub IsLowest : File → Ehdr → ℕ → ℕ → ℕ → Type 0
IsLowest f eh lo i left =
    (j : ℕ) (ph : Phdr)
    → i ≤ j
    → j < i + left
    → header32_at f eh j ≡ some ph
    → (ph.p_type == pt_load) ≡ true
    → lo ≤ ph.p_vaddr

-- What the first loop finds: a bound at or below `lo`, and below all those segments.
unfoldable pub IsFound : File → Ehdr → ℕ → ℕ → ℕ → Option (ℕ × ℕ) → Type 0
IsFound f eh lo i left none = Unit
IsFound f eh lo i left (some s) = (s.0 ≤ lo) × IsLowest f eh (s.0) i left

IsFound-before :
    (f : File) (eh : Ehdr) (lo' lo i left : ℕ) (o : Option (ℕ × ℕ))
    → lo' ≤ lo
    → ((ph : Phdr)
        → header32_at f eh i ≡ some ph
        → (ph.p_type == pt_load) ≡ true
        → lo' ≤ ph.p_vaddr)
    → IsFound f eh lo' (i + 1) left o
    → IsFound f eh lo i (suc left) o
unfolding IsFound IsLowest
IsFound-before f eh lo' lo i left none l h q = tt
IsFound-before f eh lo' lo i left (some s) l h q = (
  omega (arith, q.0),
  λ j ph a b e t. elim (Bool-cases (ltb i j)) [
    | inl later ↦ q.1 j ph (ground arith) (omega arith) e t
    | inr same ↦
        let at_i : i ≡ j = ground arith in
        let here : lo' ≤ ph.p_vaddr = h ph (ap (header32_at f eh) at_i ∙ e) t in
        omega (arith, here, q.0)
  ],
)

IsFound-in_segment :
    (f : File) (eh : Ehdr) (i left : ℕ) (r : ℕ × ℕ) (o : Option Phdr)
    → header32_at f eh i ≡ o
    → ((s : ℕ × ℕ) → IsFound f eh (s.0) (i + 1) left (scan_loop f eh left (i + 1) s))
    → IsFound f eh (r.0) i (suc left) (scan_segment o r >>= scan_loop f eh left (i + 1))
unfolding scan_segment IsFound
IsFound-in_segment f eh i left r none e ih = tt
IsFound-in_segment f eh i left r (some ph) e ih = elim (Bool-cases (ph.p_type == pt_load)) [
  | inl t ↦ rw t (
      IsFound-before f eh _ (r.0) i left _ (ground arith)
        (λ ph' e' t'.
          rw (sym (ap Phdr.p_vaddr (some-injective ph ph' (sym e ∙ e')))) (ground arith))
        (ih _))
  | inr t ↦ rw t (
      IsFound-before f eh _ (r.0) i left _ (omega arith)
        (λ ph' e' t'.
          let same : ph' ≡ ph = some-injective ph' ph (sym e' ∙ e) in
          let type : ph'.p_type ≡ ph.p_type = ap Phdr.p_type same in ground arith)
        (ih _))
]

pub scan_loop-IsFound :
    (f : File) (eh : Ehdr) (left i : ℕ) (r : ℕ × ℕ)
    → IsFound f eh (r.0) i left (scan_loop f eh left i r)
unfolding scan_loop IsFound IsLowest
scan_loop-IsFound f eh zero i r = (omega arith, λ j ph a b e t. omega arith)
scan_loop-IsFound f eh (suc left) i r =
    IsFound-in_segment f eh i left r (header32_at f eh i) refl
      (λ s. scan_loop-IsFound f eh left (i + 1) s)
