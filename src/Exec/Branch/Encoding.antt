-- ===== src/Exec/Branch/Encoding.antt =====
-- The B-type and J-type instruction words of the RISC-V ISA, against the fields that
-- src/instructions.c takes out of them.
use risc_v_emulator.Prelude.{ℕ, ◌+◌, ◌*◌, ◌%◌, ◌^◌, ◌<◌, ◌≡◌, arith, bits, bit_or, ◌∙◌, ap}
use risc_v_emulator.Prelude.Bits.{bit_or_apart}
use risc_v_emulator.Exec.Fields.{rd, rs1, rs2, funct3, imm_b, imm_b', imm_j}

-- A branch on `r1` and `r2` with the offset pattern `k`, of thirteen bits.
abbrev pub encode_b : ℕ → ℕ → ℕ → ℕ → ℕ
encode_b f3 r1 r2 k =
    bits k 12 1 * 2 ^ 31
    + bits k 5 6 * 2 ^ 25
    + r2 * 2 ^ 20
    + r1 * 2 ^ 15
    + f3 * 2 ^ 12
    + bits k 1 4 * 2 ^ 8
    + bits k 11 1 * 2 ^ 7
    + 0x63

-- `jal` with the offset pattern `k`, of twenty-one bits.
abbrev pub encode_j : ℕ → ℕ → ℕ
encode_j d k =
    bits k 20 1 * 2 ^ 31
    + bits k 1 10 * 2 ^ 21
    + bits k 11 1 * 2 ^ 20
    + bits k 12 8 * 2 ^ 12
    + d * 2 ^ 7
    + 0x6f

-- The joined fields as sums.
imm_b_sum :
    (i : ℕ)
    → imm_b i ≡ bits i 31 1 * 2 ^ 12 + bits i 25 6 * 2 ^ 5 + bits i 8 4 * 2 + bits i 7 1 * 2 ^ 11
imm_b_sum i =
    ap (λ x. bit_or (bit_or x (bits i 8 4 * 2)) (bits i 7 1 * 2 ^ 11))
      (bit_or_apart 0 12 (bits i 31 1) (bits i 25 6 * 2 ^ 5) 0 _ _ (omega arith) (omega arith)
        (omega arith) (omega arith))
    ∙ ap (λ x. bit_or x (bits i 7 1 * 2 ^ 11))
        (bit_or_apart 0 5 (bits i 31 1 * 2 ^ 7 + bits i 25 6) (bits i 8 4 * 2) 0 _ _ (omega arith)
          (omega arith) (omega arith) (omega arith))
    ∙ bit_or_apart 11 1 (bits i 31 1) (bits i 7 1) (bits i 25 6 * 2 ^ 5 + bits i 8 4 * 2) _ _
        (omega arith) (omega arith) (omega arith) (omega arith)

imm_b'_sum :
    (i : ℕ)
    → imm_b' i ≡ bits i 7 1 * 2 ^ 11 + bits i 8 4 * 2 + bits i 25 6 * 2 ^ 5 + bits i 31 1 * 2 ^ 12
imm_b'_sum i =
    ap (λ x. bit_or (bit_or x (bits i 25 6 * 2 ^ 5)) (bits i 31 1 * 2 ^ 12))
      (bit_or_apart 0 11 (bits i 7 1) (bits i 8 4 * 2) 0 _ _ (omega arith) (omega arith)
        (omega arith) (omega arith))
    ∙ ap (λ x. bit_or x (bits i 31 1 * 2 ^ 12))
        (bit_or_apart 5 6 (bits i 7 1) (bits i 25 6) (bits i 8 4 * 2) _ _ (omega arith)
          (omega arith) (omega arith) (omega arith))
    ∙ bit_or_apart 12 1 0 (bits i 31 1) (bits i 7 1 * 2 ^ 11 + bits i 8 4 * 2 + bits i 25 6 * 2 ^ 5)
        _ _ (omega arith) (omega arith) (omega arith) (omega arith)

imm_j_sum :
    (i : ℕ)
    → imm_j i
      ≡ bits i 31 1 * 2 ^ 20 + bits i 12 8 * 2 ^ 12 + bits i 20 1 * 2 ^ 11 + bits i 21 10 * 2
imm_j_sum i =
    ap (λ x. bit_or (bit_or x (bits i 20 1 * 2 ^ 11)) (bits i 21 10 * 2))
      (bit_or_apart 0 20 (bits i 31 1) (bits i 12 8 * 2 ^ 12) 0 _ _ (omega arith) (omega arith)
        (omega arith) (omega arith))
    ∙ ap (λ x. bit_or x (bits i 21 10 * 2))
        (bit_or_apart 0 12 (bits i 31 1 * 2 ^ 8 + bits i 12 8) (bits i 20 1 * 2 ^ 11) 0 _ _
          (omega arith) (omega arith) (omega arith) (omega arith))
    ∙ bit_or_apart 0 11 (bits i 31 1 * 2 ^ 9 + bits i 12 8 * 2 + bits i 20 1) (bits i 21 10 * 2) 0 _
        _ (omega arith) (omega arith) (omega arith) (omega arith)

fields_b :
    (f3 r1 r2 k : ℕ)
    → f3 < 8
    → r1 < 32
    → r2 < 32
    → k < 2 ^ 13
    → k % 2 ≡ 0
    → let i = encode_b f3 r1 r2 k in
      (bits i 0 7 ≡ 0x63)
      × (funct3 i ≡ f3)
      × (rs1 i ≡ r1)
      × (rs2 i ≡ r2)
      × (bits i 31 1 ≡ bits k 12 1)
      × (bits i 7 1 ≡ bits k 11 1)
      × (bits i 25 6 ≡ bits k 5 6)
      × (bits i 8 4 ≡ bits k 1 4)
fields_b f3 r1 r2 k p q r s e = (
  omega arith,
  omega arith,
  omega arith,
  omega arith,
  omega arith,
  omega arith,
  omega arith,
  omega arith,
)

fields_j :
    (d k : ℕ)
    → d < 32
    → k < 2 ^ 21
    → k % 2 ≡ 0
    → let i = encode_j d k in
      (bits i 0 7 ≡ 0x6f)
      × (rd i ≡ d)
      × (bits i 31 1 ≡ bits k 20 1)
      × (bits i 12 8 ≡ bits k 12 8)
      × (bits i 20 1 ≡ bits k 11 1)
      × (bits i 21 10 ≡ bits k 1 10)
fields_j d k p q e = (omega arith, omega arith, omega arith, omega arith, omega arith, omega arith)

-- The emulator takes the encoder's fields out of its word.
pub encode_b_lem :
    (f3 r1 r2 k : ℕ)
    → f3 < 8
    → r1 < 32
    → r2 < 32
    → k < 2 ^ 13
    → k % 2 ≡ 0
    → let i = encode_b f3 r1 r2 k in
      (bits i 0 7 ≡ 0x63)
      × (funct3 i ≡ f3)
      × (rs1 i ≡ r1)
      × (rs2 i ≡ r2)
      × (imm_b i ≡ k)
      × (imm_b' i ≡ k)
encode_b_lem f3 r1 r2 k p q r s e =
    let i = encode_b f3 r1 r2 k in
    let (op, f, a, b, k₁₂, k₁₁, k₅, k₁) = fields_b f3 r1 r2 k p q r s e in
    (
      op,
      f,
      a,
      b,
      imm_b_sum i ∙ rw (k₁₂, k₁₁, k₅, k₁) (omega arith),
      imm_b'_sum i ∙ rw (k₁₂, k₁₁, k₅, k₁) (omega arith),
    )

pub encode_j_lem :
    (d k : ℕ)
    → d < 32
    → k < 2 ^ 21
    → k % 2 ≡ 0
    → let i = encode_j d k in (bits i 0 7 ≡ 0x6f) × (rd i ≡ d) × (imm_j i ≡ k)
encode_j_lem d k p q e =
    let (op, f, k₂₀, k₁₂, k₁₁, k₁) = fields_j d k p q e in
    (op, f, imm_j_sum (encode_j d k) ∙ rw (k₂₀, k₁₂, k₁₁, k₁) (omega arith))
