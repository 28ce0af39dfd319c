-- ===== src/Tests/Tables.antt =====
-- Page tables in the RAM: three of them from 0x80001000 on, which map the page 0x1000 to 0x80000000.
use risc_v_emulator.Prelude.{
  ℕ, suc, ◌+◌, ◌-◌, ◌*◌, ◌/◌, ◌%◌, ◌^◌, ◌<◌, ◌≤◌, ◌≡◌, ◌⊎◌, refl, arith, ap, sym, subst, Bool-cases,
  inl, inr, ◌==◌, if◌then◌else◌, update,
}
use risc_v_emulator.Cpu.{csr_satp}
use risc_v_emulator.Machine.{Machine}
use risc_v_emulator.Memory.Bytes.{number_at, number_at_ext}
use risc_v_emulator.Memory.Laws.{IsBytes}
use risc_v_emulator.Mmu.Tables.{entry, table_of}
use risc_v_emulator.Mmu.Rules.{IsPointer, IsLeaf, Reaches, at_leaf, through, AreInRam}
use risc_v_emulator.Mmu.Sv39.{ram_word, root}
use risc_v_emulator.Tests.Board.{hart, control}

-- The entries 0x20000801, 0x20000c01 and 0x200000df.
abbrev pub tables : ℕ → ℕ
tables a =
    if a == 0x1000
    then 0x01
    else if a == 0x1001
    then 0x08
    else if a == 0x1003
    then 0x20
    else if a == 0x2000
    then 0x01
    else if a == 0x2001
    then 0x0c
    else if a == 0x2003
    then 0x20
    else if a == 0x3008
    then 0xdf
    else if a == 0x300b
    then 0x20
    else 0

abbrev pub paged : Machine ℕ
paged = record {
  cpu = record hart { csr = update control csr_satp (8 * 2 ^ 60 + 0x80001) };
  mem = tables;
  dev = 0;
}

pub paged-IsBytes : IsBytes paged
paged-IsBytes j = ground arith

abbrev word : ℕ → ℕ
word a = ram_word tables a

number_at_zeros : (off : ℕ) → ((k : ℕ) → k < 8 → tables (off + k) ≡ 0) → number_at tables off 8 ≡ 0
number_at_zeros off h = number_at_ext tables (λ i. 0) off 8 h

empty_first : (a : ℕ) → 0x1008 ≤ a → a < 0x2000 → tables a ≡ 0
empty_first a h k = ground arith

empty_second : (a : ℕ) → 0x2008 ≤ a → a < 0x3000 → tables a ≡ 0
empty_second a h k = ground arith

empty_third : (a : ℕ) → 0x3000 ≤ a → (a < 0x3008) ⊎ (0x3010 ≤ a) → tables a ≡ 0
empty_third a h (inl k) = ground arith
empty_third a h (inr k) = ground arith

at : (a b : ℕ) → a ≡ b → word a ≡ word b
at a b e = ap word e

first_table :
    (k : ℕ) → k < 512 → (word (0x80001000 + k * 8) ≡ 0) ⊎ (word (0x80001000 + k * 8) ≡ 0x20000801)
first_table k h = elim (Bool-cases (k == 0)) [
  | inl e ↦ inr (at (0x80001000 + k * 8) 0x80001000 (ground arith))
  | inr e ↦
      let apart : 1 ≤ k = ground arith in
      inl (
        number_at_zeros (0x80001000 + k * 8 - 0x80000000) (λ i l.
          empty_first (0x80001000 + k * 8 - 0x80000000 + i) (omega (arith, apart)) (omega arith)))
]

second_table :
    (k : ℕ) → k < 512 → (word (0x80002000 + k * 8) ≡ 0) ⊎ (word (0x80002000 + k * 8) ≡ 0x20000c01)
second_table k h = elim (Bool-cases (k == 0)) [
  | inl e ↦ inr (at (0x80002000 + k * 8) 0x80002000 (ground arith))
  | inr e ↦
      let apart : 1 ≤ k = ground arith in
      inl (
        number_at_zeros (0x80002000 + k * 8 - 0x80000000) (λ i l.
          empty_second (0x80002000 + k * 8 - 0x80000000 + i) (omega (arith, apart)) (omega arith)))
]

third_table :
    (k : ℕ) → k < 512 → (word (0x80003000 + k * 8) ≡ 0) ⊎ (word (0x80003000 + k * 8) ≡ 0x200000df)
third_table k h = elim (Bool-cases (k == 1)) [
  | inl e ↦ inr (at (0x80003000 + k * 8) 0x80003008 (ground arith))
  | inr e ↦ elim (Bool-cases (k == 0)) [
    | inl z ↦ inl (
        number_at_zeros (0x80003000 + k * 8 - 0x80000000) (λ i l.
          empty_third (0x80003000 + k * 8 - 0x80000000 + i) (omega arith) (inl (ground arith))))
    | inr z ↦
        let apart : 2 ≤ k = ground arith in
        inl (
          number_at_zeros (0x80003000 + k * 8 - 0x80000000) (λ i l.
            empty_third (0x80003000 + k * 8 - 0x80000000 + i) (omega arith)
              (inr (omega (arith, apart)))))
  ]
]

zero_pointer : (x : ℕ) → x ≡ 0 → IsPointer x → ⊥
zero_pointer x e p = let v = p.0 in omega arith

no_leaf : (x y : ℕ) → x ≡ y → IsLeaf x → IsPointer y → ⊥
no_leaf x y e (v, inl r) (v', r', w', x') = omega arith
no_leaf x y e (v, inr (s, t)) (v', r', w', x') = omega arith

zero_leaf : (x : ℕ) → x ≡ 0 → IsLeaf x → ⊥
zero_leaf x e (v, k) = omega arith

first-IsPointer : IsPointer 0x20000801
first-IsPointer = (refl, refl, refl, refl)

second-IsPointer : IsPointer 0x20000c01
second-IsPointer = (refl, refl, refl, refl)

-- A table whose entries are 0 or one pointer.
AreInRam-one :
    (i t p : ℕ)
    → 0x80000000 ≤ t
    → t + 2 ^ 12 ≤ 0x88000000
    → ((k : ℕ) → k < 512 → (word (t + k * 8) ≡ 0) ⊎ (word (t + k * 8) ≡ p))
    → AreInRam word i (table_of p)
    → AreInRam word (suc i) t
AreInRam-one i t p lo hi entries below = (
  (omega arith, omega arith),
  λ k h q. elim (entries k h) [
    | inl z ↦ absurd (zero_pointer _ z q)
    | inr e ↦ subst (λ x. AreInRam word i (table_of x)) (sym e) below
  ],
)

pub paged-AreInRam : AreInRam word 2 (root paged.cpu)
paged-AreInRam = AreInRam-one 1 0x80001000 0x20000801 (omega arith) (omega arith) first_table (
    AreInRam-one 0 0x80002000 0x20000c01 (omega arith) (omega arith) second_table
      (omega arith, omega arith))

-- Below a table whose entries are 0 or a pointer the tables lead on through the pointer.
below_pointer :
    (va i t p j pte : ℕ)
    → IsPointer p
    → (entry word va (suc i) t ≡ 0) ⊎ (entry word va (suc i) t ≡ p)
    → Reaches word va (suc i) t j pte
    → Reaches word va i (table_of p) j pte
below_pointer va i t p j pte n (inl e) (at_leaf k s l) = absurd (zero_leaf _ e l)
below_pointer va i t p j pte n (inr e) (at_leaf k s l) = absurd (no_leaf _ p e l n)
below_pointer va i t p j pte n (inl e) (through k s q r l w) = absurd (zero_pointer _ e l)
below_pointer va i t p j pte n (inr e) (through k s q r l w) =
    subst (λ x. Reaches word va i (table_of x) j pte) e w

last_level :
    (va t j pte : ℕ)
    → entry word va 0 t < 2 ^ 54
    → Reaches word va 0 t j pte
    → (j ≡ 0) × (pte < 2 ^ 54)
last_level va t j pte h (at_leaf k s l) = (refl, h)

third_small : (k : ℕ) → k < 512 → word (0x80003000 + k * 8) < 2 ^ 54
third_small k h = elim (third_table k h) [ inl e ↦ omega (arith, e) | inr e ↦ omega (arith, e) ]

pub no_superpage :
    (va j pte : ℕ)
    → va < 2 ^ 38
    → Reaches word va 2 (root paged.cpu) j pte
    → (j ≡ 0) × (pte < 2 ^ 54)
no_superpage va j pte h w =
    last_level va 0x80003000 j pte (third_small (va / 2 ^ 12 % 512) (omega arith)) (
      below_pointer va 0 0x80002000 0x20000c01 j pte second-IsPointer
        (second_table (va / 2 ^ 21 % 512) (omega arith))
        (below_pointer va 1 0x80001000 0x20000801 j pte first-IsPointer
          (first_table (va / 2 ^ 30 % 512) (omega arith)) w))
