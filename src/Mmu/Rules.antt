-- ===== src/Mmu/Rules.antt =====
-- src/mmu.c: the rules of Sv39, bit by bit, against the tests of the walk.
use risc_v_emulator.Prelude.{
  ℕ, zero, suc, ◌+◌, ◌*◌, ◌/◌, ◌%◌, ◌^◌, ◌<◌, ◌≤◌, ◌≡◌, ◌≢◌, ◌⊎◌, ◌↔◌, inl, inr, refl, arith, true,
  false, ◌==◌, bit, Bool-cases,
}
use risc_v_emulator.Cpu.{Cpu}
use risc_v_emulator.Mmu.Tlb.{Access, fetch, load, store, allows}
use risc_v_emulator.Mmu.Walk.{leaf_mode_allows, pte_is_valid, pte_is_leaf, is_aligned}
use risc_v_emulator.Mmu.Tables.{
  IsClosed, IsInRam, IsPassed, IsGranted, Leads, leaf, pointer, entry, table_of, frame,
}

-- The bit `k` of an entry is set, or clear.
abbrev pub Has : ℕ → ℕ → Type 0
Has pte k = pte / 2 ^ k % 2 ≡ 1

abbrev pub Lacks : ℕ → ℕ → Type 0
Lacks pte k = pte / 2 ^ k % 2 ≡ 0

-- A leaf: V, and R, or X without W. An entry with W and without R is neither leaf nor pointer.
abbrev pub IsLeaf : ℕ → Type 0
IsLeaf pte = Has pte 0 × (Has pte 1 ⊎ (Has pte 3 × Lacks pte 2))

-- A pointer to a lower table: V, and none of R, W and X.
abbrev pub IsPointer : ℕ → Type 0
IsPointer pte = Has pte 0 × Lacks pte 1 × Lacks pte 2 × Lacks pte 3

-- The accesses that are no fetches.
abbrev pub IsData : Access → Type 0
IsData fetch = ⊥
IsData load = Unit {0}
IsData store = Unit {0}

-- U mode needs U. S mode needs U clear, or else SUM and an access to data. M mode may everything.
abbrev pub HasMode : Cpu → Access → ℕ → Type 0
HasMode c acc pte =
    ((c.privilege ≡ 0) × Has pte 4)
    ⊎ (((c.privilege ≡ 1) × Lacks pte 4)
        ⊎ (((c.privilege ≡ 1) × (c.sum ≢ 0) × IsData acc × Has pte 4) ⊎ (2 ≤ c.privilege)))

-- A fetch needs X, a load R, or X under MXR, and a store W.
abbrev pub HasKind : Cpu → Access → ℕ → Type 0
HasKind c fetch pte = Has pte 3
HasKind c load pte = Has pte 1 ⊎ ((c.mxr ≢ 0) × Has pte 3)
HasKind c store pte = Has pte 2

-- From the table of level `i` at `table` the entries for an address lead to the leaf `pte` of level `j`.
pub data Reaches (word : ℕ → ℕ) (va : ℕ) : ℕ → ℕ → ℕ → ℕ → Type 0 where
  at_leaf :
      (i table : ℕ)
      → IsLeaf (entry word va i table)
      → Reaches word va i table i (entry word va i table)
  through :
      (i table j pte : ℕ)
      → IsPointer (entry word va (suc i) table)
      → Reaches word va i (table_of (entry word va (suc i) table)) j pte
      → Reaches word va (suc i) table j pte

-- A leaf of level `j` that lets the access through, to the address `pa`.
pub record IsPermitted (c : Cpu) (va : ℕ) (acc : Access) (j pte pa : ℕ) : Type 0 where
  pub mode : HasMode c acc pte
  pub kind : HasKind c acc pte
  pub aligned : pte / 2 ^ 10 % 2 ^ 44 % 2 ^ (9 * j) ≡ 0
  pub place : pa ≡ frame va pte j
  pub passed : IsPassed pa

-- A table of level `i` that lies in the RAM, as do all the tables that its pointers lead to.
abbrev pub AreInRam : (ℕ → ℕ) → ℕ → ℕ → Type 0
AreInRam word zero t = IsInRam t
AreInRam word (suc i) t =
    IsInRam t
    × ((k : ℕ)
        → k < 512
        → IsPointer (word (t + k * 8))
        → AreInRam word i (table_of (word (t + k * 8))))

IsLeaf-iff : (pte : ℕ) → IsLeaf pte ↔ ((pte_is_valid pte ≡ true) × (pte_is_leaf pte ≡ true))
unfolding bit
IsLeaf-iff pte = (
  λ (v, k). elim k [
    | inl r ↦ (ground arith, ground arith)
    | inr (x, w) ↦ (ground arith, ground arith)
  ],
  λ (v, l). (
    ground arith,
    elim (Bool-cases (pte / 2 ^ 1 % 2 == 1)) [
      | inl r ↦ inl (ground arith)
      | inr r ↦ inr (ground arith, ground arith)
    ],
  ),
)

IsPointer-iff : (pte : ℕ) → IsPointer pte ↔ ((pte_is_valid pte ≡ true) × (pte_is_leaf pte ≡ false))
unfolding bit
IsPointer-iff pte = (
  λ (v, r, w, x). (ground arith, ground arith),
  λ (v, l). (ground arith, ground arith, ground arith, ground arith),
)

HasMode-allows :
    (c : Cpu) (acc : Access) (pte : ℕ) → HasMode c acc pte → leaf_mode_allows c acc pte ≡ true
unfolding bit
HasMode-allows c acc pte (inl (p, u)) = ground arith
HasMode-allows c acc pte (inr (inl (p, u))) = ground arith
HasMode-allows c fetch pte (inr (inr (inl (p, s, d, u)))) = absurd d
HasMode-allows c load pte (inr (inr (inl (p, s, d, u)))) = ground arith
HasMode-allows c store pte (inr (inr (inl (p, s, d, u)))) = ground arith
HasMode-allows c acc pte (inr (inr (inr p))) = ground arith

-- S mode has a user page only under SUM, and for data.
user_page :
    (c : Cpu) (acc : Access) (pte : ℕ)
    → leaf_mode_allows c acc pte ≡ true
    → c.privilege ≡ 1
    → Has pte 4
    → (c.sum ≢ 0) × IsData acc
unfolding bit
user_page c fetch pte h p u = absurd (ground arith)
user_page c load pte h p u = (λ z. ground arith, tt)
user_page c store pte h p u = (λ z. ground arith, tt)

allows-HasMode :
    (c : Cpu) (acc : Access) (pte : ℕ) → leaf_mode_allows c acc pte ≡ true → HasMode c acc pte
unfolding bit
allows-HasMode c acc pte h = elim (Bool-cases (c.privilege == 0)) [
  | inl p ↦ inl (ground arith, ground arith)
  | inr p ↦ elim (Bool-cases (c.privilege == 1)) [
    | inr q ↦ inr (inr (inr (ground arith)))
    | inl q ↦ elim (Bool-cases (pte / 2 ^ 4 % 2 == 1)) [
      | inr u ↦ inr (inl (ground arith, ground arith))
      | inl u ↦
          let page : Has pte 4 = ground arith in
          let one : c.privilege ≡ 1 = ground arith in
          let (s, d) = user_page c acc pte h one page in inr (inr (inl (one, s, d, page)))
    ]
  ]
]

HasKind-iff : (c : Cpu) (acc : Access) (pte : ℕ) → HasKind c acc pte ↔ (allows c acc pte ≡ true)
unfolding bit
HasKind-iff c fetch pte = (λ h. ground arith, λ h. ground arith)
HasKind-iff c store pte = (λ h. ground arith, λ h. ground arith)
HasKind-iff c load pte = (
  λ k. elim k [ inl r ↦ ground arith | inr (x, y) ↦ ground arith ],
  λ h. elim (Bool-cases (pte / 2 ^ 1 % 2 == 1)) [
    | inl r ↦ inl (ground arith)
    | inr r ↦ inr ((λ z. ground arith), ground arith)
  ],
)

aligned_iff : (j pte : ℕ) → (pte / 2 ^ 10 % 2 ^ 44 % 2 ^ (9 * j) ≡ 0) ↔ (is_aligned j pte ≡ true)
aligned_iff zero pte = (λ h. refl, λ h. omega arith)
aligned_iff (suc i) pte = (λ h. ground arith, λ h. ground arith)

pub IsPermitted-iff :
    (c : Cpu) (va : ℕ) (acc : Access) (j pte pa : ℕ)
    → IsPermitted c va acc j pte pa ↔ IsGranted c va acc j pte pa
IsPermitted-iff c va acc j pte pa = (
  λ g. record {
    mode = HasMode-allows c acc pte g.mode;
    kind = (HasKind-iff c acc pte).0 g.kind;
    aligned = (aligned_iff j pte).0 g.aligned;
    place = g.place;
    passed = g.passed;
  },
  λ g. record {
    mode = allows-HasMode c acc pte g.mode;
    kind = (HasKind-iff c acc pte).1 g.kind;
    aligned = (aligned_iff j pte).1 g.aligned;
    place = g.place;
    passed = g.passed;
  },
)

pub Leads-Reaches :
    (word : ℕ → ℕ) (va : ℕ) {i t j pte : ℕ} → Leads word va i t j pte → Reaches word va i t j pte
Leads-Reaches word va (leaf i t v l) = at_leaf i t ((IsLeaf-iff (entry word va i t)).1 (v, l))
Leads-Reaches word va (pointer i t j pte v l w) =
    through i t j pte ((IsPointer-iff (entry word va (suc i) t)).1 (v, l)) (Leads-Reaches word va w)

pub Reaches-Leads :
    (word : ℕ → ℕ) (va : ℕ) {i t j pte : ℕ} → Reaches word va i t j pte → Leads word va i t j pte
Reaches-Leads word va (at_leaf i t h) =
    let (v, l) = (IsLeaf-iff (entry word va i t)).0 h in leaf i t v l
Reaches-Leads word va (through i t j pte h w) =
    let (v, l) = (IsPointer-iff (entry word va (suc i) t)).0 h in
    pointer i t j pte v l (Reaches-Leads word va w)

pub AreInRam-IsClosed : (word : ℕ → ℕ) (i t : ℕ) → AreInRam word i t → IsClosed word i t
AreInRam-IsClosed word zero t h = h
AreInRam-IsClosed word (suc i) t (inside, below) = (
  inside,
  λ k p v l.
      AreInRam-IsClosed word i (table_of (word (t + k * 8)))
        (below k p ((IsPointer-iff (word (t + k * 8))).1 (v, l))),
)
