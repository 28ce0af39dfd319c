-- ===== src/Plic/Select.antt =====
-- src/plic.c, the loop of `plic_claim` and `plic_update`: which interrupt comes out of it.
use risc_v_emulator.Prelude.{
  ℕ, zero, suc, ◌+◌, ◌-◌, ◌≤◌, ◌<◌, ◌≡◌, ◌≢◌, ◌⊎◌, inl, inr, refl, arith, Bool, true, ◌==◌, ==_iff,
  ◌&&◌, ltb, Bool-cases, lt→ltb,
}
use risc_v_emulator.Plic.{Plic, max_irqs, eligible, best, best_loop}

-- An interrupt that the hart has to take: eligible, and above its threshold.
abbrev pub wants : Plic → ℕ → ℕ → Bool
wants p cpu_id irq = eligible p cpu_id irq && ltb (p.threshold cpu_id) (p.priority irq)

-- The order among interrupts: the greater priority, and the smaller number at the same.
abbrev pub GoesFirst : Plic → ℕ → ℕ → Type 0
GoesFirst p w j = (p.priority j < p.priority w) ⊎ ((p.priority j ≡ p.priority w) × (w ≤ j))

module _ (p : Plic) (cpu_id : ℕ) where
  -- What the loop knows at the end of a range: no eligible interrupt of it is above `top`.
  abbrev AtMost : ℕ → ℕ → ℕ → Type 0
  AtMost i n top = (j : ℕ) → i ≤ j → j < i + n → eligible p cpu_id j ≡ true → p.priority j ≤ top

  -- The interrupt `w` of the range is eligible, above `top`, and goes before every other.
  record Wins (i n top w : ℕ) : Type 0 where
    from : i ≤ w
    below : w < i + n
    fit : eligible p cpu_id w ≡ true
    above : top < p.priority w
    first : (j : ℕ) → i ≤ j → j < i + n → eligible p cpu_id j ≡ true → GoesFirst p w j

  moved :
      (i j top : ℕ)
      → i ≡ j
      → (eligible p cpu_id i ≡ true → p.priority i ≤ top)
      → eligible p cpu_id j ≡ true
      → p.priority j ≤ top
  moved i j top s h = rw (← s) h

  AtMost-suc :
      (i n top : ℕ)
      → (eligible p cpu_id i ≡ true → p.priority i ≤ top)
      → AtMost (i + 1) n top
      → AtMost i (suc n) top
  AtMost-suc i n top h rest j lo hi e = elim (Bool-cases (i == j)) [
    | inl s ↦ moved i j top ((==_iff i j).0 s) h e
    | inr s ↦ rest j (ground arith) (omega arith) e
  ]

  Wins-suc :
      (i n top top' w : ℕ)
      → (eligible p cpu_id i ≡ true → p.priority i ≤ top')
      → top ≤ top'
      → Wins (i + 1) n top' w
      → Wins i (suc n) top w
  Wins-suc i n top top' w h le r = record {
    from = omega (arith, r.from);
    below = omega (arith, r.below);
    fit = r.fit;
    above = omega (arith, r.above);
    first = λ j lo hi e. elim (Bool-cases (i == j)) [
      | inl s ↦ inl (omega (arith, r.above, moved i j top' ((==_iff i j).0 s) h e))
      | inr s ↦ r.first j (ground arith) (omega arith) e
    ];
  }

  -- The outcomes of the loop.
  Outcome : ℕ → ℕ → ℕ → ℕ → ℕ → Type 0
  Outcome i n top win w = ((w ≡ win) × AtMost i n top) ⊎ Wins i n top w

  take_lead :
      (i n top win w : ℕ)
      → eligible p cpu_id i ≡ true
      → top < p.priority i
      → Outcome (i + 1) n (p.priority i) i w
      → Outcome i (suc n) top win w
  unfolding Outcome
  take_lead i n top win w e lt (inl (same, rest)) =
      let all = AtMost-suc i n (p.priority i) (λ _. omega arith) rest in
      inr (
        rw same (record {
          from = omega arith;
          below = omega arith;
          fit = e;
          above = lt;
          first = λ j lo hi f. leads i j lo (all j lo hi f);
        }))
    where
      leads : (i j : ℕ) → i ≤ j → p.priority j ≤ p.priority i → GoesFirst p i j
      leads i j lo h = ground arith
  take_lead i n top win w e lt (inr r) =
      inr (Wins-suc i n top (p.priority i) w (λ _. omega arith) (omega arith) r)

  keep_lead :
      (i n top win w : ℕ)
      → (eligible p cpu_id i ≡ true → p.priority i ≤ top)
      → Outcome (i + 1) n top win w
      → Outcome i (suc n) top win w
  unfolding Outcome
  keep_lead i n top win w h (inl (same, rest)) = inl (same, AtMost-suc i n top h rest)
  keep_lead i n top win w h (inr r) = inr (Wins-suc i n top top w h (omega arith) r)

  best_loop_lem : (n i top win : ℕ) → Outcome i n top win (best_loop p cpu_id n i top win)
  unfolding best_loop Outcome
  best_loop_lem zero i top win = inl (refl, λ j lo hi e. absurd (omega arith))
  best_loop_lem (suc n) i top win =
      elim (Bool-cases (eligible p cpu_id i && ltb top (p.priority i))) [
        | inl l ↦ rw l (
            take_lead i n top win _ (ground arith) (ground arith)
              (best_loop_lem n (i + 1) (p.priority i) i))
        | inr l ↦
            rw l (keep_lead i n top win _ (λ e. ground arith) (best_loop_lem n (i + 1) top win))
      ]

  best_lem : Outcome 1 (max_irqs - 1) (p.threshold cpu_id) 0 (best p cpu_id)
  unfolding best
  best_lem = best_loop_lem (max_irqs - 1) 1 (p.threshold cpu_id) 0

  -- Whatever is selected is an interrupt of the controller that the hart wants.
  pub best-wants :
      best p cpu_id ≢ 0 → (best p cpu_id < max_irqs) × (wants p cpu_id (best p cpu_id) ≡ true)
  unfolding Outcome
  best-wants h = elim best_lem [
    | inl (e, _) ↦ absurd (h e)
    | inr r ↦ (
      omega (arith, r.below),
      rw (r.fit, lt→ltb (p.threshold cpu_id) (p.priority (best p cpu_id)) r.above) refl,
    )
  ]

  -- An interrupt that the hart wants does not go before the selected one.
  pub best_first :
      (irq : ℕ)
      → 1 ≤ irq
      → irq < max_irqs
      → wants p cpu_id irq ≡ true
      → (best p cpu_id ≢ 0) × GoesFirst p (best p cpu_id) irq
  unfolding Outcome
  best_first irq lo hi w = elim best_lem [
    | inl (_, all) ↦ absurd (ground (arith, all irq lo (omega arith) (ground arith)))
    | inr r ↦ (λ z. omega (arith, r.from), r.first irq lo (omega arith) (ground arith))
  ]
