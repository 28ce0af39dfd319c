-- ===== src/Exec/Zero/Accesses.antt =====
-- src/instructions.c: loads, stores and atomic operations, and register 0.
use risc_v_emulator.Prelude.{if_same, ℕ, ◌≡◌, refl, arith, ap, Bool, true, false, ◌==◌, ◌&&◌}
use risc_v_emulator.Prelude.{if◌then◌else◌, bits, List, Bool-cases, inl, inr}
use risc_v_emulator.Machine.{Machine, Region, Undefined}
use risc_v_emulator.Bus.{bus_read, bus_write}
use risc_v_emulator.Mmu.Tlb.{Access}
use risc_v_emulator.Mmu.Walk.{get_pa}
use risc_v_emulator.Exec.Access.{on_cpu, exec_load, exec_store, exec_amo}
use risc_v_emulator.Exec.Access
use risc_v_emulator.Exec.Compressed.Quadrant1.{rd_full}
use risc_v_emulator.Exec.Compressed.Memory.{exec_c0, exec_c2, c_lwsp}
use risc_v_emulator.Exec.Zero.Devices.{gprs, AllKeep, bus_read-part, bus_write-part, get_pa-part}
use risc_v_emulator.Exec.Zero.Words.{write_gpr-zero, c_addi4spn-zero, c_slli-zero, c_jump_move-zero}

module _ {D : Type 0} where
  reg_0 : Machine D → ℕ
  reg_0 m = m.cpu.gpr 0

  machine_if :
      (b : Bool) (x y : Machine D)
      → (if b then x else y).cpu.gpr 0 ≡ (if b then x.cpu.gpr 0 else y.cpu.gpr 0)
  machine_if true x y = refl
  machine_if false x y = refl

module _ {D : Type 0} (undef : Undefined) (bus : List (Region D)) (keep : AllKeep gprs bus) where
  bus_read-zero : (a n : ℕ) (m : Machine D) → (bus_read undef bus a n m).1.cpu.gpr 0 ≡ m.cpu.gpr 0
  bus_read-zero a n m = ap (λ (g : ℕ → ℕ). g 0) (bus_read-part gprs undef bus a n m keep)

  bus_write-zero : (a v n : ℕ) (m : Machine D) → (bus_write bus a v n m).cpu.gpr 0 ≡ m.cpu.gpr 0
  bus_write-zero a v n m = ap (λ (g : ℕ → ℕ). g 0) (bus_write-part gprs bus a v n m keep)

  get_pa-zero :
      (va : ℕ) (acc : Access) (m : Machine D)
      → (get_pa undef bus va acc m).1.cpu.gpr 0 ≡ m.cpu.gpr 0
  get_pa-zero va acc m = ap (λ (g : ℕ → ℕ). g 0) (get_pa-part gprs undef bus keep va acc m)

  ruleset through =
      (machine_if, if_same, write_gpr-zero, bus_read-zero, bus_write-zero, get_pa-zero)

  pub exec_load-zero : (i : ℕ) (m : Machine D) → (exec_load undef bus i m).cpu.gpr 0 ≡ m.cpu.gpr 0
  unfolding exec_load Access.load_lb Access.load_lh Access.load_lw Access.load_lbu
  exec_load-zero i m = simp through

  pub exec_store-zero : (i : ℕ) (m : Machine D) → (exec_store undef bus i m).cpu.gpr 0 ≡ m.cpu.gpr 0
  unfolding exec_store
  exec_store-zero i m = simp through

  pub exec_amo-zero : (i : ℕ) (m : Machine D) → (exec_amo undef bus i m).cpu.gpr 0 ≡ m.cpu.gpr 0
  unfolding exec_amo Access.amoswap_w Access.amoadd_w
  exec_amo-zero i m = simp through

  c_lwsp-zero : (i : ℕ) (m : Machine D) → (c_lwsp undef bus i m).cpu.gpr 0 ≡ m.cpu.gpr 0
  unfolding c_lwsp
  c_lwsp-zero i m = elim (Bool-cases (rd_full i == 0)) [
    | inl e ↦ simp (through, e)
    | inr e ↦ simp (through, e)
  ]

  pub exec_c0-zero : (i : ℕ) (m : Machine D) → (exec_c0 undef bus i m).cpu.gpr 0 ≡ m.cpu.gpr 0
  unfolding exec_c0
  exec_c0-zero i m = simp (through, c_addi4spn-zero) (ground arith)

  pub exec_c2-zero :
      (i : ℕ) (m : Machine D)
      → (bits i 13 3 == 3 && rd_full i == 0) ≡ false
      → (exec_c2 undef bus i m).cpu.gpr 0 ≡ m.cpu.gpr 0
  unfolding exec_c2
  exec_c2-zero i m h = elim (Bool-cases (bits i 13 3 == 3)) [
    | inl e ↦ simp (through, c_slli-zero, c_lwsp-zero, e) (ground arith)
    | inr e ↦ simp (through, c_slli-zero, c_jump_move-zero, c_lwsp-zero, e)
  ]
