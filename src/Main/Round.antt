-- ===== src/Main/Round.antt =====
-- src/main.c: a round of the emulation, from the step of the hart to the check for interrupts.
use risc_v_emulator.Prelude.{
  ℕ, ◌≡◌, refl, ap, sym, subst, ◌∙◌, Bool, true, false, ◌==◌, ◌||◌, not, if◌then◌else◌, Bool-cases,
  inl, inr, Option, none, some, List, [], ◌∷◌,
}
use risc_v_emulator.Cpu.{Cpu}
use risc_v_emulator.Machine.{Machine, Region, Undefined, set_cpu, halt}
use risc_v_emulator.Plic.{Plic}
use risc_v_emulator.Trap.{
  check_and_handle_interrupts, pending_cause, take_smode_trap, take_mmode_trap, ack_soft,
}
use risc_v_emulator.Virtio.{Host, Disk, DiskOperation}
use risc_v_emulator.Virtio.Transfer.{virtio_disk_update, complete_due, not_due, is_due}
use risc_v_emulator.Decode.{cpu_step}

-- The devices behind the bus of the hart: the disk, the controller with the other harts, and the rest.
pub record Devices (D : Type 0) : Type 0 where
  pub disk : Disk
  pub plic : Plic
  pub others : ℕ → Cpu
  pub rest : D

-- What a round comes to: the loop ends, the hart waits on `cond`, the program has no defined next
-- state, or the next state.
pub data RoundResult (A : Type 0) : Type 0 where
  stopped : RoundResult A
  waiting : RoundResult A
  broken : RoundResult A
  next : A → RoundResult A

module _ {D : Type 0} where
  abbrev pub to_host : Machine (Devices D) → Host D
  to_host m =
      let d = m.dev in
      record {
        disk = d.disk;
        machine = record { cpu = m.cpu; mem = m.mem; dev = d.rest };
        plic = d.plic;
        others = d.others;
      }

  abbrev pub from_host : Host D → Machine (Devices D)
  from_host h = record {
    cpu = h.machine.cpu;
    mem = h.machine.mem;
    dev = record { disk = h.disk; plic = h.plic; others = h.others; rest = h.machine.dev };
  }

  -- `if (cpu[0].gpr[0] != 0) cpu[0].halted = true`.
  abbrev pub halt_on_zero : Machine (Devices D) → Machine (Devices D)
  halt_on_zero m = if m.cpu.gpr 0 == 0 then m else halt m

  module _ (undef : Undefined) (bus : List (Region (Devices D))) (dma : List (Region D)) where
    abbrev pub after_update : Option (Host D) → RoundResult (Machine (Devices D))
    after_update none = broken
    after_update (some h) =
        let m = from_host h in next (set_cpu m (check_and_handle_interrupts undef.shl_1u_63 m.cpu))

    abbrev pub after_step : ℕ → Option (Machine (Devices D)) → RoundResult (Machine (Devices D))
    after_step fuel none = broken
    after_step fuel (some m) =
        let m' = halt_on_zero m in
        after_update (virtio_disk_update undef dma fuel m'.cpu.cycle_count (to_host m'))

    -- The body of the loop. `fuel` is that of the chains of descriptors.
    unfoldable pub round : ℕ → Machine (Devices D) → RoundResult (Machine (Devices D))
    round fuel m =
        let stepped = after_step fuel (cpu_step undef bus m) in
        if not m.cpu.running then stopped else if m.cpu.halted then waiting else stepped

check-halted :
    (s : ℕ) (c : Cpu)
    → ((check_and_handle_interrupts s c).halted ≡ c.halted)
      × ((check_and_handle_interrupts s c).running ≡ c.running)
unfolding check_and_handle_interrupts take_smode_trap take_mmode_trap
check-halted s c =
    let cause = pending_cause c in
    let acked = ack_soft c cause in
    let same : (acked.halted ≡ c.halted) × (acked.running ≡ c.running) =
      elim (Bool-cases (cause == 3 || cause == 1)) [
        | inl t ↦ rw t (refl, refl)
        | inr t ↦ rw t (refl, refl)
      ] in
    elim (Bool-cases ((cause == 1 || cause == 5) || cause == 9)) [
      | inl t ↦ rw t same
      | inr t ↦ elim (Bool-cases ((cause == 7 || cause == 11) || cause == 3)) [
        | inl u ↦ rw (t, u) same
        | inr u ↦ rw (t, u) same
      ]
    ]

goes_on :
    {A : Type 0}
    → (running halted : Bool) → running ≡ true
    → halted ≡ false
    → (o : RoundResult A) → (if not running then stopped else if halted then waiting else o) ≡ o
goes_on running halted r h o = rw (r, h) refl

module _ {D : Type 0} (undef : Undefined) (dma : List (Region D)) where
  -- No operation of the list is due.
  abbrev pub AllPending : ℕ → List DiskOperation → Type 0
  AllPending now [] = Unit
  AllPending now (op ∷ ops) = (is_due undef dma now op ≡ false) × AllPending now ops

  nothing_due :
      (fuel now : ℕ) (ops : List DiskOperation) (h : Host D)
      → AllPending now ops
      → (complete_due undef dma fuel now ops h ≡ some h) × (not_due undef dma now ops ≡ ops)
  unfolding complete_due not_due
  nothing_due fuel now [] h p = (refl, refl)
  nothing_due fuel now (op ∷ ops) h p =
      let ih = nothing_due fuel now ops h (p.1) in
      (rw (complete_due, p.0) (ih.0), rw (p.0) (ap (λ (l : List DiskOperation). op ∷ l) (ih.1)))

  update_idle :
      (fuel now : ℕ) (h : Host D)
      → AllPending now h.disk.pending_ops
      → virtio_disk_update undef dma fuel now h ≡ some h
  unfolding virtio_disk_update
  update_idle fuel now h p =
      let q = nothing_due fuel now h.disk.pending_ops h p in rw (q.0, q.1) refl

  module _ (bus : List (Region (Devices D))) where
    -- A round in which no operation of the disk is due.
    round_idle :
        (fuel : ℕ) (m m₁ : Machine (Devices D))
        → m.cpu.running ≡ true
        → m.cpu.halted ≡ false
        → cpu_step undef bus m ≡ some m₁
        → AllPending (halt_on_zero m₁).cpu.cycle_count (halt_on_zero m₁).dev.disk.pending_ops
        → round undef bus dma fuel m
          ≡ next (
              set_cpu
                (halt_on_zero m₁)
                (check_and_handle_interrupts undef.shl_1u_63 (halt_on_zero m₁).cpu))
    unfolding round
    round_idle fuel m m₁ on go e p =
        let m' = halt_on_zero m₁ in
        goes_on m.cpu.running m.cpu.halted on go _
        ∙ ap (after_step undef bus dma fuel) e
        ∙ (ap (after_update undef bus dma) (update_idle fuel m'.cpu.cycle_count (to_host m') p))

    -- When a step leaves register 0 other than 0, the round ends and the next one waits: no further
    -- instruction runs. The hart runs and is not halted before the round and runs after the step, and no
    -- operation of the disk is due after the step.
    pub round-round :
        (fuel : ℕ) (m m₁ : Machine (Devices D))
        → m.cpu.running ≡ true
        → m.cpu.halted ≡ false
        → cpu_step undef bus m ≡ some m₁
        → m₁.cpu.gpr 0 == 0 ≡ false
        → m₁.cpu.running ≡ true
        → AllPending m₁.cpu.cycle_count m₁.dev.disk.pending_ops
        → (m' : Machine (Devices D)) × (round undef bus dma fuel m ≡ next m')
          × (round undef bus dma fuel m' ≡ waiting)
    unfolding round
    round-round fuel m m₁ on go e z on' p =
        let halted : halt_on_zero m₁ ≡ halt m₁ = rw z refl in
        let c = (halt m₁).cpu in
        let kept = check-halted undef.shl_1u_63 c in
        let running : (check_and_handle_interrupts undef.shl_1u_63 c).running ≡ true =
          kept.1 ∙ on' in
        let waits : (check_and_handle_interrupts undef.shl_1u_63 c).halted ≡ true = kept.0 in
        (
          set_cpu (halt m₁) (check_and_handle_interrupts undef.shl_1u_63 c),
          round_idle fuel m m₁ on go e (
                subst
                  (λ (x : Machine (Devices D)). AllPending x.cpu.cycle_count x.dev.disk.pending_ops)
                  (sym halted) p)
              ∙ ap
                  (λ (x : Machine (Devices D)).
                    next (set_cpu x (check_and_handle_interrupts undef.shl_1u_63 x.cpu)))
                  halted,
          rw (running, waits) refl,
        )
