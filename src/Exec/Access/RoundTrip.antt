-- ===== src/Exec/Access/RoundTrip.antt =====
-- src/instructions.c: a store and a load of the same bytes of RAM, without translation.
use risc_v_emulator.Prelude.{
  ℕ, ◌+◌, ◌-◌, ◌*◌, ◌%◌, ◌^◌, ◌≤◌, ◌<◌, ◌≡◌, inl, inr, refl, arith, ◌∙◌, ap,
}
use risc_v_emulator.Prelude.{List, ◌∷◌, add64, sext, bits}
use native.Mathlib.Nat.{mod-mod, mod-lt, mod-eq_of_lt, one-le-pow}
use risc_v_emulator.Cpu.{Cpu, csr_satp, write_gpr, advance}
use risc_v_emulator.Machine.{Machine, Region, Undefined, memory_base, memory_size}
use risc_v_emulator.Memory.{ram_read, ram_write}
use risc_v_emulator.Memory.Laws.{IsBytes, ram_read-ram_write}
use risc_v_emulator.Bus.{bus_read}
use risc_v_emulator.Bus.Laws.{ram_region, bus_read_ram, bus_write_ram}
use risc_v_emulator.Exec.Fields.{rd, rs1, rs2, funct3, imm_i, imm_s}
use risc_v_emulator.Exec.Access.{on_cpu, exec_load, exec_store}
use risc_v_emulator.Exec.Access.Bare.{
  size_of, loaded, seven_cases, set_cpu-ram_write, ram_write-cpu, ram_read-machine, exec_store_bare,
  exec_load_bare,
}

sext_cut : (w v : ℕ) → sext w (v % 2 ^ w) ≡ sext w v
sext_cut w v = rw (mod-mod v (2 ^ w)) refl

-- The value that a load with funct3 `f` makes of a register that a store of as many bytes wrote.
loaded_cut : (f v : ℕ) → f < 7 → loaded f (v % 2 ^ (8 * size_of f)) ≡ loaded f v
loaded_cut f v h = elim (seven_cases f h) [
  | inl p ↦ rw p (sext_cut 8 v)
  | inr (inl p) ↦ rw p (sext_cut 16 v)
  | inr (inr (inl p)) ↦ rw p (mod-mod v (2 ^ 32))
  | inr (inr (inr (inl p))) ↦ rw p (mod-mod v (2 ^ 64))
  | inr (inr (inr (inr (inl p)))) ↦ rw p (mod-mod v (2 ^ 8))
  | inr (inr (inr (inr (inr (inl p))))) ↦ rw p (mod-mod v (2 ^ 16))
  | inr (inr (inr (inr (inr (inr p))))) ↦ rw p (mod-mod v (2 ^ 32))
]

-- The size of an access is 1, 2, 4 or 8 bytes.
size_bounds : (f : ℕ) → f < 7 → (0 < size_of f) × (size_of f ≤ 8)
size_bounds f h = elim (seven_cases f h) [
  | inl p ↦ rw p (omega arith, omega arith)
  | inr (inl p) ↦ rw p (omega arith, omega arith)
  | inr (inr (inl p)) ↦ rw p (omega arith, omega arith)
  | inr (inr (inr (inl p))) ↦ rw p (omega arith, omega arith)
  | inr (inr (inr (inr (inl p)))) ↦ rw p (omega arith, omega arith)
  | inr (inr (inr (inr (inr (inl p))))) ↦ rw p (omega arith, omega arith)
  | inr (inr (inr (inr (inr (inr p))))) ↦ rw p (omega arith, omega arith)
]

size_of_store : (f w : ℕ) → f % 4 ≡ w → size_of w ≡ size_of f
size_of_store f w e = rw (← e, mod-mod f 4) refl

value_fits : (v f : ℕ) → v % 2 ^ (8 * size_of f) < 2 ^ (8 * size_of f)
value_fits v f = mod-lt v (one-le-pow (8 * size_of f) 2 (omega arith))

module _ {D : Type 0} where
  read_pair :
      (off v n : ℕ) (m : Machine D)
      → IsBytes m
      → v < 2 ^ (8 * n)
      → off + n ≤ memory_size
      → off < memory_size
      → n ≤ 8
      → ram_read off n (ram_write off v n m) ≡ (v, ram_write off v n m)
  read_pair off v n m bytes fits inside start small i = (
    (ram_read-ram_write m off v n bytes inside start small ∙ mod-eq_of_lt fits) i,
    ram_read-machine off n (ram_write off v n m) i,
  )

module _ {D : Type 0} (undef : Undefined) (rs : List (Region D)) where
  store_step :
      (f i addr : ℕ) (m : Machine D)
      → bits (m.cpu.csr csr_satp) 60 4 ≡ 0
      → m.cpu.gpr (rs2 i) < 2 ^ 64
      → funct3 i ≡ f % 4
      → add64 (m.cpu.gpr (rs1 i)) (imm_s i) ≡ addr
      → memory_base ≤ addr
      → addr < memory_base + memory_size
      → exec_store undef (ram_region ∷ rs) i m
        ≡ ram_write
            (addr - memory_base)
            (m.cpu.gpr (rs2 i) % 2 ^ (8 * size_of f))
            (size_of f)
            (on_cpu (λ c. advance c 4) m)
  store_step f i addr m bare small e a lo hi =
      let v = m.cpu.gpr (rs2 i) % 2 ^ (8 * size_of f) in
      exec_store_bare undef (ram_region ∷ rs) (f % 4) i addr m bare small a e (omega arith)
      ∙ rw
          (
            size_of_store f (f % 4) refl,
            bus_write_ram rs addr v (size_of f) m lo hi,
            ram_write-cpu (addr - memory_base) v (size_of f) m,
          )
          (set_cpu-ram_write (addr - memory_base) v (size_of f) m (advance m.cpu 4))

  load_step :
      (f i addr v : ℕ) (m : Machine D)
      → IsBytes m
      → bits (m.cpu.csr csr_satp) 60 4 ≡ 0
      → funct3 i ≡ f
      → f < 7
      → v < 2 ^ (8 * size_of f)
      → add64 (m.cpu.gpr (rs1 i)) (imm_i i) ≡ addr
      → memory_base ≤ addr
      → addr + size_of f ≤ memory_base + memory_size
      → let m₁ = ram_write (addr - memory_base) v (size_of f) m in
        (exec_load undef (ram_region ∷ rs) i m₁).cpu
        ≡ advance (write_gpr m.cpu (rd i) (loaded f v)) 4
  load_step f i addr v m bytes bare e less fits a lo hi =
      let n = size_of f in
      let off = addr - memory_base in
      let m₁ = ram_write off v n m in
      let same = ram_write-cpu off v n m in
      let (pos, most) = size_bounds f less in
      let r : bus_read undef (ram_region ∷ rs) addr n m₁ ≡ (v, m₁) =
        bus_read_ram undef rs addr n m₁ lo (omega arith)
        ∙ read_pair off v n m bytes fits (omega arith) (omega arith) most in
      ap (λ (x : Machine D). x.cpu)
        (exec_load_bare undef (ram_region ∷ rs) f i addr m₁ (rw same bare) (rw same a) e less v fits
          r)
      ∙ ap (λ (c : Cpu). advance (write_gpr c (rd i) (loaded f v)) 4) same

  -- Without translation, and with a RAM of bytes registered first, a load of the bytes inside
  -- RAM that a store of a 64-bit register wrote gives the register: cut to the size of the
  -- access, and extended by the sign for `lb` and `lh` but by zeros for every other load, `lw`
  -- among them. Both instructions pass, and of the hart only the pc and `rd` change.
  pub exec_load-exec_store :
      (f si li : ℕ) (m : Machine D)
      → IsBytes m
      → bits (m.cpu.csr csr_satp) 60 4 ≡ 0
      → m.cpu.gpr (rs2 si) < 2 ^ 64
      → f < 7
      → funct3 si ≡ f % 4
      → funct3 li ≡ f
      → rs1 li ≡ rs1 si
      → imm_i li ≡ imm_s si
      → memory_base ≤ add64 (m.cpu.gpr (rs1 si)) (imm_s si)
      → add64 (m.cpu.gpr (rs1 si)) (imm_s si) + size_of f ≤ memory_base + memory_size
      → (exec_load undef (ram_region ∷ rs) li (exec_store undef (ram_region ∷ rs) si m)).cpu
        ≡ advance (write_gpr (advance m.cpu 4) (rd li) (loaded f (m.cpu.gpr (rs2 si)))) 4
  exec_load-exec_store f si li m bytes bare small less fs fl base off lo hi =
      let v = m.cpu.gpr (rs2 si) % 2 ^ (8 * size_of f) in
      let (pos, most) = size_bounds f less in
      let addr = add64 (m.cpu.gpr (rs1 si)) (imm_s si) in
      rw
        (
          store_step f si addr m bare small fs refl lo (omega arith),
          ← loaded_cut f (m.cpu.gpr (rs2 si)) less,
        )
        (load_step f li addr v (on_cpu (λ c. advance c 4) m) bytes bare fl less
          (value_fits (m.cpu.gpr (rs2 si)) f) (rw (base, off) refl) lo hi)
