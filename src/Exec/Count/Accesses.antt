-- ===== src/Exec/Count/Accesses.antt =====
-- src/instructions.c: loads, stores and atomic operations, and the count of instructions.
use risc_v_emulator.Prelude.{if_same, ℕ, ◌≡◌, refl, ap, Bool, true, false, ◌==◌}
use risc_v_emulator.Prelude.{if◌then◌else◌, List, Bool-cases, inl, inr}
use risc_v_emulator.Machine.{Machine, Region, Undefined}
use risc_v_emulator.Bus.{bus_read, bus_write}
use risc_v_emulator.Mmu.Tlb.{Access}
use risc_v_emulator.Mmu.Walk.{get_pa}
use risc_v_emulator.Exec.Access.{on_cpu, exec_load, exec_store, exec_amo}
use risc_v_emulator.Exec.Access
use risc_v_emulator.Exec.Compressed.Quadrant1.{rd_full}
use risc_v_emulator.Exec.Compressed.Memory.{exec_c0, exec_c2, c_lwsp}
use risc_v_emulator.Exec.Zero.Devices.{
  instructions, AllKeep, bus_read-part, bus_write-part, get_pa-part,
}
use risc_v_emulator.Exec.Count.{write_gpr-count, c_addi4spn-count, c_slli-count, c_jump_move-count}

module _ {D : Type 0} where
  machine_if :
      (b : Bool) (x y : Machine D)
      → (if b then x else y).cpu.inst_count ≡ (if b then x.cpu.inst_count else y.cpu.inst_count)
  machine_if true x y = refl
  machine_if false x y = refl

module _ {D : Type 0} (undef : Undefined) (bus : List (Region D))
    (keep : AllKeep instructions bus) where
  bus_read-count :
      (a n : ℕ) (m : Machine D) → (bus_read undef bus a n m).1.cpu.inst_count ≡ m.cpu.inst_count
  bus_read-count a n m = ap (λ (g : ℕ → ℕ). g 0) (bus_read-part instructions undef bus a n m keep)

  bus_write-count :
      (a v n : ℕ) (m : Machine D) → (bus_write bus a v n m).cpu.inst_count ≡ m.cpu.inst_count
  bus_write-count a v n m = ap (λ (g : ℕ → ℕ). g 0) (bus_write-part instructions bus a v n m keep)

  get_pa-count :
      (va : ℕ) (acc : Access) (m : Machine D)
      → (get_pa undef bus va acc m).1.cpu.inst_count ≡ m.cpu.inst_count
  get_pa-count va acc m = ap (λ (g : ℕ → ℕ). g 0) (get_pa-part instructions undef bus keep va acc m)

  ruleset through =
      (machine_if, if_same, write_gpr-count, bus_read-count, bus_write-count, get_pa-count)

  pub exec_load-count :
      (i : ℕ) (m : Machine D) → (exec_load undef bus i m).cpu.inst_count ≡ m.cpu.inst_count
  unfolding exec_load Access.load_lb Access.load_lh Access.load_lw Access.load_lbu
  exec_load-count i m = simp through

  pub exec_store-count :
      (i : ℕ) (m : Machine D) → (exec_store undef bus i m).cpu.inst_count ≡ m.cpu.inst_count
  unfolding exec_store
  exec_store-count i m = simp through

  pub exec_amo-count :
      (i : ℕ) (m : Machine D) → (exec_amo undef bus i m).cpu.inst_count ≡ m.cpu.inst_count
  unfolding exec_amo Access.amoswap_w Access.amoadd_w
  exec_amo-count i m = simp through

  c_lwsp-count : (i : ℕ) (m : Machine D) → (c_lwsp undef bus i m).cpu.inst_count ≡ m.cpu.inst_count
  unfolding c_lwsp
  c_lwsp-count i m = elim (Bool-cases (rd_full i == 0)) [
    | inl e ↦ simp (through, e)
    | inr e ↦ simp (through, e)
  ]

  pub exec_c0-count :
      (i : ℕ) (m : Machine D) → (exec_c0 undef bus i m).cpu.inst_count ≡ m.cpu.inst_count
  unfolding exec_c0
  exec_c0-count i m = simp (through, c_addi4spn-count)

  pub exec_c2-count :
      (i : ℕ) (m : Machine D) → (exec_c2 undef bus i m).cpu.inst_count ≡ m.cpu.inst_count
  unfolding exec_c2
  exec_c2-count i m = simp (through, c_slli-count, c_jump_move-count, c_lwsp-count)
