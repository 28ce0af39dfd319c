-- ===== src/Decode/Run.antt =====
-- src/cpu.c, `cpu_run`: steps of the hart until it is at pc 0 or has counted over 1000
-- instructions.
use risc_v_emulator.Prelude.{
  ℕ, zero, suc, ◌-◌, ◌≤◌, Bool, true, false, ◌==◌, ◌||◌, ltb, if◌then◌else◌,
}
use risc_v_emulator.Prelude.{
  ◌≡◌, inl, inr, refl, arith, subst, List, Option, none, some, Bool-cases, add64,
}
use risc_v_emulator.Machine.{Machine, Region, Undefined}
use risc_v_emulator.Exec.Zero.Devices.{AllKeep, instructions}
use risc_v_emulator.Decode.{cpu_step, on_cpu}
use risc_v_emulator.Decode.Count.{cpu_step-count}

-- What a run comes to: the loop ends, a call through a NULL entry of a table, or the fuel is used
-- up.
pub data RunEnd (D : Type 0) : Type 0 where
  left_loop : Machine D → RunEnd D
  null_call : RunEnd D
  out_of_fuel : RunEnd D

module _ {D : Type 0} where
  -- `if (cpu->pc == 0 || cpu->inst_count > 1000) cpu->running = false`.
  abbrev pub check_exit : Machine D → Machine D
  check_exit m =
      if m.cpu.pc == 0 || ltb 1000 m.cpu.inst_count
      then on_cpu (λ c. record c { running = false }) m
      else m

  module _ (undef : Undefined) (bus : List (Region D)) where
    unfoldable pub cpu_run : ℕ → Machine D → RunEnd D
    cpu_run zero m = if m.cpu.running then out_of_fuel else left_loop m
    cpu_run (suc fuel) m =
        let rest = elim (cpu_step undef bus m) as (λ _. RunEnd D) [
          | none ↦ null_call
          | some m' ↦ cpu_run fuel (check_exit m')
        ] in
        if m.cpu.running then rest else left_loop m

  -- The run ends, and where the loop ends, it ends for the reason that the hart no longer runs.
  abbrev pub Ends : RunEnd D → Type 0
  Ends (left_loop m) = m.cpu.running ≡ false
  Ends null_call = Unit {0}
  Ends out_of_fuel = ⊥

-- The rounds that are left at a count of instructions: one more where the count wraps around.
abbrev rounds_left : ℕ → ℕ
rounds_left n = if ltb 1000 n then 1002 else 1001 - n

rounds_left_positive : (n : ℕ) → 1 ≤ rounds_left n
rounds_left_positive n = ground arith

rounds_left_step :
    (n fuel : ℕ)
    → rounds_left n ≤ suc fuel
    → ltb 1000 (add64 n 1) ≡ false
    → rounds_left (add64 n 1) ≤ fuel
rounds_left_step n fuel h small = elim (Bool-cases (ltb 1000 n)) [
  | inl e ↦ ground arith
  | inr e ↦ ground arith
]

Ends-if :
    {D : Type 0}
    → (b : Bool) (x y : RunEnd D) → (b ≡ true → Ends x)
    → (b ≡ false → Ends y)
    → Ends (if b then x else y)
Ends-if true x y h k = h refl
Ends-if false x y h k = k refl

run_rest :
    {D : Type 0}
    → (o : Option (Machine D)) (run : Machine D → RunEnd D)
    → ((m' : Machine D) → o ≡ some m' → Ends (run m'))
    → Ends (elim o as (λ _. RunEnd D) [ none ↦ null_call | some m' ↦ run m' ])
run_rest none run h = tt
run_rest (some m') run h = h m' refl

module _ {D : Type 0} (undef : Undefined) (bus : List (Region D))
    (keep : AllKeep instructions bus) where
  -- What the rest of the run needs: fuel for the rounds that are left, where the hart runs.
  IsFueled : ℕ → Machine D → Type 0
  IsFueled fuel m = m.cpu.running ≡ true → rounds_left m.cpu.inst_count ≤ fuel

  check_exit-IsFueled :
      (n fuel : ℕ) (m : Machine D)
      → m.cpu.inst_count ≡ add64 n 1
      → rounds_left n ≤ suc fuel
      → IsFueled fuel (check_exit m)
  unfolding IsFueled
  check_exit-IsFueled n fuel m counted left = elim (Bool-cases (m.cpu.pc == 0)) [
    | inl e ↦ rw e (λ run. absurd cc)
    | inr e ↦ elim (Bool-cases (ltb 1000 m.cpu.inst_count)) [
      | inl o ↦ rw (e, o) (λ run. absurd cc)
      | inr o ↦
          rw (e, o)
            (λ run.
              rw counted (rounds_left_step n fuel left (subst (λ k. ltb 1000 k ≡ false) counted o)))
    ]
  ]

  run_fueled : (fuel : ℕ) (m : Machine D) → IsFueled fuel m → Ends (cpu_run undef bus fuel m)
  unfolding cpu_run IsFueled
  run_fueled zero m h =
      Ends-if m.cpu.running _ _
        (λ e. absurd (omega (arith, h e, rounds_left_positive m.cpu.inst_count))) (λ e. e)
  run_fueled (suc fuel) m h =
      Ends-if m.cpu.running _ _
        (λ e.
          run_rest (cpu_step undef bus m) (λ m'. cpu_run undef bus fuel (check_exit m'))
            (λ m' stepped. run_fueled fuel (check_exit m') (
              check_exit-IsFueled m.cpu.inst_count fuel m'
                (cpu_step-count undef bus keep m m' stepped) (h e))))
        (λ e. e)

  -- On devices that leave the count of instructions alone the loop of `cpu_run` ends: after 1002
  -- rounds at most it has been left, with the hart no longer running, or a NULL entry of a table
  -- has been called, whatever the program and the count at the start.
  pub cpu_run-Ends : (fuel : ℕ) (m : Machine D) → 1002 ≤ fuel → Ends (cpu_run undef bus fuel m)
  unfolding IsFueled
  cpu_run-Ends fuel m enough = run_fueled fuel m (λ run. ground arith)
