-- ===== src/Plic/Claim.antt =====
-- src/plic.c: `plic_claim` and `plic_complete`, which interrupt a claim hands out.
use risc_v_emulator.Prelude.{
  ℕ, ◌/◌, ◌%◌, ◌^◌, ◌⊎◌, bit, ◌≤◌, ◌<◌, ◌≡◌, ◌≢◌, ◌↔◌, inl, inr, refl, arith, ◌∙◌, sym, Bool, true,
  false, ◌==◌, ==_iff, ◌&&◌, not, ltb, lt→ltb, if◌then◌else◌, Bool-cases, List, [], ◌∷◌, u32,
}
use risc_v_emulator.Plic.{
  Plic, Board, plic_is_valid_irq, plic_is_enabled, eligible, best, with_plic, plic_update,
  plic_set_irq, plic_claim, plic_complete,
}
use risc_v_emulator.Plic.Words.{flag, raise, lower, flag-raise, flag-lower}
use risc_v_emulator.Plic.Select.{wants, GoesFirst, best-wants, best_first}
use risc_v_emulator.Plic.Ways.{either_way, plic_read_keeps, plic_write_keeps}
use risc_v_emulator.Plic.Registers.{context_register, Event, line, reading, writing, handle, run}

-- The bit of an interrupt in words of 32 of them.
abbrev pub bit_of : (ℕ → ℕ) → ℕ → ℕ
bit_of words irq = words (irq / 32) / 2 ^ (irq % 32) % 2

-- An interrupt for the hart: pending, enabled for it, not claimed by it and above its threshold.
pub record IsWanted (p : Plic) (cpu_id irq : ℕ) : Type 0 where
  pub pending : bit_of p.pending irq ≡ 1
  pub enabled : bit_of (p.enable cpu_id) irq ≡ 1
  pub unclaimed : bit_of (p.claimed cpu_id) irq ≡ 0
  pub above : p.threshold cpu_id < p.priority irq

-- The interrupt to serve first: the hart wants it, and it goes before every other that it wants.
pub record IsFirst (p : Plic) (cpu_id irq : ℕ) : Type 0 where
  pub exists : (1 ≤ irq) × (irq < 1023)
  pub wanted : IsWanted p cpu_id irq
  pub ahead :
      (j : ℕ)
      → 1 ≤ j
      → j < 1023
      → IsWanted p cpu_id j
      → (p.priority j < p.priority irq) ⊎ ((p.priority j ≡ p.priority irq) × (irq ≤ j))

wants-IsWanted : (p : Plic) (cpu_id irq : ℕ) → wants p cpu_id irq ≡ true → IsWanted p cpu_id irq
unfolding eligible plic_is_enabled flag bit
wants-IsWanted p cpu_id irq w = record {
  pending = ground arith;
  enabled = ground arith;
  unclaimed = ground arith;
  above = ground arith;
}

IsWanted-wants :
    (p : Plic) (cpu_id irq : ℕ)
    → cpu_id < 4
    → 1 ≤ irq
    → irq < 1023
    → IsWanted p cpu_id irq
    → wants p cpu_id irq ≡ true
unfolding eligible plic_is_enabled flag bit
IsWanted-wants p cpu_id irq h lo hi w =
    let pending = w.pending in
    let enabled = w.enabled in
    let unclaimed = w.unclaimed in
    let above = w.above in
    let upper : ltb (p.threshold cpu_id) (p.priority irq) ≡ true = ground arith in
    let hart : ltb cpu_id 4 ≡ true = ground arith in ground arith

best-IsFirst :
    (p : Plic) (cpu_id : ℕ) → cpu_id < 4 → best p cpu_id ≢ 0 → IsFirst p cpu_id (best p cpu_id)
best-IsFirst p cpu_id c h = record {
  exists = (ground arith, (best-wants p cpu_id h).0);
  wanted = wants-IsWanted p cpu_id (best p cpu_id) (best-wants p cpu_id h).1;
  ahead = λ j lo hi w. (best_first p cpu_id j lo hi (IsWanted-wants p cpu_id j c lo hi w)).1;
}

first_unique : (p : Plic) (i j : ℕ) → GoesFirst p i j → GoesFirst p j i → i ≡ j
first_unique p i j (inl h) (inl k) = absurd (omega arith)
first_unique p i j (inl h) (inr (e, k)) = absurd (omega arith)
first_unique p i j (inr (e, k)) (inl h) = absurd (omega arith)
first_unique p i j (inr (e, k)) (inr (f, l)) = omega arith

best_iff :
    (p : Plic) (cpu_id irq : ℕ)
    → cpu_id < 4
    → irq ≢ 0
    → (best p cpu_id ≡ irq) ↔ IsFirst p cpu_id irq
best_iff p cpu_id irq c h = (
  λ e. rw (← e) (best-IsFirst p cpu_id c (λ z. h (sym e ∙ z))),
  λ f.
      let lo = f.exists.0 in
      let hi = f.exists.1 in
      let r = best_first p cpu_id irq lo hi (IsWanted-wants p cpu_id irq c lo hi f.wanted) in
      let w = best-wants p cpu_id (r.0) in
      let back =
        f.ahead (best p cpu_id) (ground arith) (w.0)
          (wants-IsWanted p cpu_id (best p cpu_id) (w.1)) in
      first_unique p (best p cpu_id) irq (r.1) back,
)

claimed_irq : (cpu_id : ℕ) (b : Board) → cpu_id < 4 → (plic_claim cpu_id b).0 ≡ best b.plic cpu_id
unfolding plic_claim
claimed_irq cpu_id b h = rw (lt→ltb cpu_id 4 h) refl

-- A claim of one of the four harts returns an interrupt exactly where that is the first to serve:
-- pending, enabled for the hart, not claimed by it and above its threshold, with the greatest
-- priority of all of those, and with the smallest number among equals.
pub plic_claim_iff :
    (cpu_id irq : ℕ) (b : Board)
    → cpu_id < 4
    → irq ≢ 0
    → ((plic_claim cpu_id b).0 ≡ irq) ↔ IsFirst b.plic cpu_id irq
plic_claim_iff cpu_id irq b h n = rw (claimed_irq cpu_id b h) (best_iff b.plic cpu_id irq h n)

-- `plic_update` leaves what is claimed.
plic_update-claimed :
    (cpu_id : ℕ) (b : Board) → (plic_update cpu_id b).plic.claimed ≡ b.plic.claimed
unfolding plic_update
plic_update-claimed cpu_id b = elim (Bool-cases (ltb cpu_id 4)) [
  | inl e ↦ rw e refl
  | inr e ↦ rw e refl
]

module _ (irq : ℕ) where
  -- Hart 0 has claimed the interrupt and not completed it.
  InService : Board → Type 0
  InService b = flag (b.plic.claimed 0) irq ≡ true

  held : (b : Board) → flag (b.plic.claimed 0) irq ≡ true → InService b
  unfolding InService
  held b s = s

  shows : (b : Board) → InService b → flag (b.plic.claimed 0) irq ≡ true
  unfolding InService
  shows b s = s

  after : (cpu_id : ℕ) (b : Board) → InService b → InService (plic_update cpu_id b)
  unfolding InService
  after cpu_id b s = rw (plic_update-claimed cpu_id b) s

  line_keeps : (i : ℕ) (level : Bool) (b : Board) → InService b → InService (plic_set_irq i level b)
  unfolding plic_set_irq
  line_keeps i level b s =
      let p = b.plic in
      let words = if level then raise p.pending i else lower p.pending i in
      let b' = with_plic b (record p { pending = words }) in
      let s' = held b' (shows b s) in
      either_way InService (plic_is_valid_irq i) _ _
        (either_way InService (plic_is_enabled p i 0) _ _ (after 0 b' s') s') s

  claim_keeps : (b : Board) → InService b → InService ((plic_claim 0 b).1)
  unfolding plic_claim
  claim_keeps b s =
      let h = shows b s in
      either_way InService _ _ _ s
        (after 0 _ (held _ (ground (arith, flag-raise (b.plic.claimed 0) (best b.plic 0) irq))))

  complete_keeps :
      (other : ℕ) (b : Board) → other ≢ irq → InService b → InService (plic_complete 0 other b)
  unfolding plic_complete
  complete_keeps other b n s =
      let h = shows b s in
      either_way InService _ _ _
        (after 0 _ (held _ (ground (arith, flag-lower (b.plic.claimed 0) other irq)))) s

  -- The event that completes the interrupt.
  unfoldable pub completes : Event → Bool
  completes (writing offset value) = context_register offset == 4 && u32 value == irq
  completes (line i level) = false
  completes (reading offset) = false

  unfoldable pub none_completes : List Event → Bool
  none_completes [] = true
  none_completes (e ∷ es) = not (completes e) && none_completes es

  handle_keeps :
      (e : Event) (b : Board) → completes e ≡ false → InService b → InService (handle e b)
  unfolding handle completes
  handle_keeps (line i level) b n s = line_keeps i level b s
  handle_keeps (reading offset) b n s = plic_read_keeps InService offset b s (claim_keeps b s)
  handle_keeps (writing offset value) b n s =
      plic_write_keeps InService offset value b s (λ e. held _ (shows b s))
        (λ cpu_id words. after cpu_id _ (held _ (shows b s))) (after 0 _ (held _ (shows b s)))
        (λ e. complete_keeps (u32 value) b (other offset value n e) s)
    where
      other :
          (offset value : ℕ)
          → (context_register offset == 4 && u32 value == irq) ≡ false
          → context_register offset == 4 ≡ true
          → u32 value ≢ irq
      other offset value n e z = absurd (ground (arith, n, e, z))

  run_keeps :
      (es : List Event) (b : Board) → none_completes es ≡ true → InService b → InService (run es b)
  unfolding run none_completes
  run_keeps [] b n s = s
  run_keeps (e ∷ es) b n s = run_keeps es _ (ground arith) (handle_keeps e b (ground arith) s)

  -- An interrupt in service is not handed out.
  not_again : (b : Board) → irq ≢ 0 → InService b → (plic_claim 0 b).0 ≢ irq
  unfolding InService flag bit
  not_again b h s e =
      let first = (plic_claim_iff 0 irq b (omega arith) h).0 e in
      let unclaimed = first.wanted.unclaimed in ground arith

claim_serves :
    (b : Board) → (plic_claim 0 b).0 ≢ 0 → InService ((plic_claim 0 b).0) ((plic_claim 0 b).1)
unfolding plic_claim
claim_serves b h =
    let w = best b.plic 0 in
    elim (Bool-cases (w == 0)) [
      | inl e ↦ absurd (h ((==_iff w 0).0 e))
      | inr e ↦ rw e (after w 0 _ (held w _ (ground (arith, flag-raise (b.plic.claimed 0) w w))))
    ]

-- After a claim of hart 0 that hands out an interrupt, no claim hands it out again, whatever
-- happens in between, as long as none of it is the completion of that interrupt.
pub run-plic_claim :
    (b : Board) (es : List Event)
    → (plic_claim 0 b).0 ≢ 0
    → none_completes ((plic_claim 0 b).0) es ≡ true
    → (plic_claim 0 (run es ((plic_claim 0 b).1))).0 ≢ (plic_claim 0 b).0
run-plic_claim b es h n =
    let irq = (plic_claim 0 b).0 in not_again irq _ h (run_keeps irq es _ n (claim_serves b h))
