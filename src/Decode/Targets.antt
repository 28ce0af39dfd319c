-- ===== src/Decode/Targets.antt =====
-- src/instructions.c: where the ISA and where the handlers of branches go on, as arithmetic.
use risc_v_emulator.Prelude.{ℕ, ◌^◌, ◌<◌, Bool, true, false, ◌==◌, not, ltb, if◌then◌else◌}
use risc_v_emulator.Prelude.{◌≡◌, ◌⊎◌, ◌↔◌, inl, inr, refl, arith, bits, add64, slt64, sext}

-- The condition of the branch `funct3` in the ISA.
abbrev pub takes : ℕ → ℕ → ℕ → Bool
takes f3 a b =
    if f3 == 0
    then a == b
    else if f3 == 1
    then not (a == b)
    else if f3 == 4
    then slt64 a b
    else if f3 == 5
    then not (slt64 a b)
    else if f3 == 6
    then ltb a b
    else not (ltb a b)

-- The program counter that the ISA wants after a branch.
abbrev pub branch_target : ℕ → ℕ → ℕ → ℕ → ℕ → ℕ
branch_target f3 a b k pc = add64 pc (if takes f3 a b then sext 13 k else 4)

-- The offset that `blt` extends, and the comparison that `bge` makes.
pub target_blt :
    (b : Bool) (k pc : ℕ)
    → pc < 2 ^ 64
    → k < 2 ^ 13
    → (add64 pc (if b then sext 12 k else 4) ≡ add64 pc (if b then sext 13 k else 4))
      ↔ ((b ≡ false) ⊎ (bits k 12 1 ≡ bits k 11 1))
target_blt false k pc p s = (λ _. inl refl, λ _. refl)
target_blt true k pc p s = (λ h. inr (ground arith), λ h. ground arith)

signs_agree :
    (a b : ℕ)
    → a < 2 ^ 64
    → b < 2 ^ 64
    → (not (ltb a b) ≡ not (slt64 a b)) ↔ (bits a 63 1 ≡ bits b 63 1)
signs_agree a b p q = (λ h. ground arith, λ h. ground arith)

target_agrees :
    (t u : Bool) (k pc : ℕ)
    → pc < 2 ^ 64
    → k < 2 ^ 13
    → (add64 pc (if t then sext 13 k else 4) ≡ add64 pc (if u then sext 13 k else 4))
      ↔ ((k ≡ 4) ⊎ (t ≡ u))
target_agrees false false k pc p s = (λ _. inr refl, λ _. refl)
target_agrees true true k pc p s = (λ _. inr refl, λ _. refl)
target_agrees false true k pc p s = (λ h. inl (ground arith), λ h. ground arith)
target_agrees true false k pc p s = (λ h. inl (ground arith), λ h. ground arith)

pub target_bge :
    (a b k pc : ℕ)
    → pc < 2 ^ 64
    → a < 2 ^ 64
    → b < 2 ^ 64
    → k < 2 ^ 13
    → (add64 pc (if not (ltb a b) then sext 13 k else 4)
        ≡ add64 pc (if not (slt64 a b) then sext 13 k else 4))
      ↔ ((k ≡ 4) ⊎ (bits a 63 1 ≡ bits b 63 1))
target_bge a b k pc p x y s =
    let (f, g) = target_agrees (not (ltb a b)) (not (slt64 a b)) k pc p s in
    let (f', g') = signs_agree a b x y in
    (
      λ h. elim (f h) [ inl e ↦ inl e | inr e ↦ inr (f' e) ],
      λ h. elim h [ inl e ↦ g (inl e) | inr e ↦ g (inr (g' e)) ],
    )
