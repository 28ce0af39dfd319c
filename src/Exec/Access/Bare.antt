-- ===== src/Exec/Access/Bare.antt =====
-- src/instructions.c: a store and a load where addresses are not translated.
use risc_v_emulator.Prelude.{ℕ, ◌*◌, ◌%◌, ◌^◌, ◌<◌, ◌≡◌, ◌⊎◌, inl, inr, refl, arith, Bool-cases}
use risc_v_emulator.Prelude.{◌==◌, ltb, leb, ◌||◌, if◌then◌else◌, List, add64, sext, bits, u32}
use risc_v_emulator.Cpu.{Cpu, csr_satp, write_gpr, advance}
use risc_v_emulator.Machine.{Machine, Region, Undefined, set_cpu, memory_size}
use risc_v_emulator.Memory.{ram_read, ram_write}
use risc_v_emulator.Bus.{bus_read, bus_write}
use risc_v_emulator.Mmu.Tlb.{Access, load, store}
use risc_v_emulator.Mmu.Walk.{get_pa}
use risc_v_emulator.Exec.Fields.{rd, rs1, rs2, funct3, imm_i, imm_s}
use risc_v_emulator.Exec.Access
use risc_v_emulator.Exec.Access.{on_cpu, exec_load, exec_store}

-- The bytes of an access with a funct3, and the value that a load leaves of a stored one.
abbrev pub size_of : ℕ → ℕ
size_of f = 2 ^ (f % 4)

abbrev pub loaded : ℕ → ℕ → ℕ
loaded f v = if f == 0 then sext 8 v else if f == 1 then sext 16 v else v % 2 ^ (8 * size_of f)

pub seven_cases :
    (f : ℕ) → f < 7 → (f ≡ 0) ⊎ (f ≡ 1) ⊎ (f ≡ 2) ⊎ (f ≡ 3) ⊎ (f ≡ 4) ⊎ (f ≡ 5) ⊎ (f ≡ 6)
seven_cases f h = ground arith

whole_8 : (v : ℕ) → v < 2 ^ (8 * size_of 3) → v % 2 ^ 64 ≡ v
whole_8 v h = omega arith

whole_1 : (v : ℕ) → v < 2 ^ (8 * size_of 4) → (v % 2 ^ 8 ≡ v) × (u32 v ≡ v)
whole_1 v h = (omega arith, omega arith)

below : (v f k : ℕ) → v < 2 ^ (8 * size_of f) → f ≡ k → v < 2 ^ (8 * size_of k)
below v f k h p = rw (← p) h

module _ {D : Type 0} where
  pub set_cpu-ram_write :
      (off v n : ℕ) (m : Machine D) (c : Cpu)
      → set_cpu (ram_write off v n m) c ≡ ram_write off v n (set_cpu m c)
  unfolding ram_write
  set_cpu-ram_write off v n m c = elim (Bool-cases (ltb memory_size (add64 off n))) [
    | inl e ↦ rw e refl
    | inr e ↦ rw e refl
  ]

  pub ram_write-cpu : (off v n : ℕ) (m : Machine D) → (ram_write off v n m).cpu ≡ m.cpu
  unfolding ram_write
  ram_write-cpu off v n m = elim (Bool-cases (ltb memory_size (add64 off n))) [
    | inl e ↦ rw e refl
    | inr e ↦ rw e refl
  ]

  pub ram_read-machine : (off n : ℕ) (m : Machine D) → (ram_read off n m).1 ≡ m
  unfolding ram_read
  ram_read-machine off n m =
      elim (Bool-cases (ltb memory_size (add64 off n) || leb memory_size off)) [
        | inl e ↦ rw e refl
        | inr e ↦ rw e refl
      ]

module _ {D : Type 0} (undef : Undefined) (bus : List (Region D)) where
  get_pa_bare :
      (va : ℕ) (acc : Access) (m : Machine D)
      → bits (m.cpu.csr csr_satp) 60 4 ≡ 0
      → get_pa undef bus va acc m ≡ (va, m)
  unfolding get_pa
  get_pa_bare va acc m bare = rw bare refl

  pub exec_store_bare :
      (w i addr : ℕ) (m : Machine D)
      → bits (m.cpu.csr csr_satp) 60 4 ≡ 0
      → m.cpu.gpr (rs2 i) < 2 ^ 64
      → add64 (m.cpu.gpr (rs1 i)) (imm_s i) ≡ addr
      → funct3 i ≡ w
      → w < 4
      → exec_store undef bus i m
        ≡ on_cpu
            (λ c. advance c 4)
            (bus_write bus addr (m.cpu.gpr (rs2 i) % 2 ^ (8 * size_of w)) (size_of w) m)
  unfolding exec_store
  exec_store_bare w i addr m bare small e f less =
      let whole : m.cpu.gpr (rs2 i) % 2 ^ 64 ≡ m.cpu.gpr (rs2 i) = omega arith in
      rw (get_pa_bare (add64 (m.cpu.gpr (rs1 i)) (imm_s i)) store m bare, e, f)
        (elim (seven_cases w (omega arith)) [
          | inl p ↦ rw p refl
          | inr (inl p) ↦ rw p refl
          | inr (inr (inl p)) ↦ rw p refl
          | inr (inr (inr (inl p))) ↦ rw (p, whole) refl
          | inr (inr (inr (inr q))) ↦ absurd (ground arith)
        ])

  read_at :
      (addr v f k : ℕ) (m : Machine D)
      → bus_read undef bus addr (size_of f) m ≡ (v, m)
      → f ≡ k
      → bus_read undef bus addr (size_of k) m ≡ (v, m)
  read_at addr v f k m r p = rw (← p) r

  pub exec_load_bare :
      (f i addr : ℕ) (m : Machine D)
      → bits (m.cpu.csr csr_satp) 60 4 ≡ 0
      → add64 (m.cpu.gpr (rs1 i)) (imm_i i) ≡ addr
      → funct3 i ≡ f
      → f < 7
      → (v : ℕ) → v < 2 ^ (8 * size_of f)
      → bus_read undef bus addr (size_of f) m ≡ (v, m)
      → exec_load undef bus i m ≡ on_cpu (λ c. advance (write_gpr c (rd i) (loaded f v)) 4) m
  unfolding exec_load Access.load_lb Access.load_lh Access.load_lw Access.load_lbu
  exec_load_bare f i addr m bare e g less v fits r =
      rw (get_pa_bare (add64 (m.cpu.gpr (rs1 i)) (imm_i i)) load m bare, e, g)
        (elim (seven_cases f less) [
          | inl p ↦ rw (p, read_at addr v f 0 m r p) refl
          | inr (inl p) ↦ rw (p, read_at addr v f 1 m r p) refl
          | inr (inr (inl p)) ↦ rw (p, read_at addr v f 2 m r p) refl
          | inr (inr (inr (inl p))) ↦
              rw (p, read_at addr v f 3 m r p) (rw (whole_8 v (below v f 3 fits p)) refl)
          | inr (inr (inr (inr (inl p)))) ↦
              rw (p, read_at addr v f 4 m r p)
                (rw ((whole_1 v (below v f 4 fits p)).0, (whole_1 v (below v f 4 fits p)).1) refl)
          | inr (inr (inr (inr (inr (inl p))))) ↦ rw (p, read_at addr v f 5 m r p) refl
          | inr (inr (inr (inr (inr (inr p))))) ↦ rw (p, read_at addr v f 6 m r p) refl
        ])
