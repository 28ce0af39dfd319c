-- ===== src/Mmu/Coherent.antt =====
-- src/mmu.c: the translation lookaside buffer stays in agreement with the page tables over hits
-- and insertions.
use risc_v_emulator.Prelude.{
  ℕ, ◌+◌, ◌-◌, ◌*◌, ◌%◌, ◌^◌, ◌<◌, ◌≤◌, ◌≡◌, arith, ◌==◌, Bool-cases, inl, inr, some, update,
}
use risc_v_emulator.Cpu.{Cpu, MemFault, TlbEntry, csr_satp}
use risc_v_emulator.Machine.{Undefined, memory_base, memory_size}
use risc_v_emulator.Mmu.Tlb.{Access, tlb_size, tlb_hit, tlb_check, tlb_insert, victim, new_entry}
use risc_v_emulator.Mmu.Walk.{leaf_result}
use risc_v_emulator.Mmu.Tables.{table_of, Leads, leaf_result-IsGranted}
use risc_v_emulator.Mmu.Backed.{IsBacked, new_entry-IsBacked, touched-IsBacked}

-- A hart that is like `c₀` in what a translation depends on, but for the buffer, whose entries are all
-- backed by the tables.
pub record IsCoherent (word : ℕ → ℕ) (root : ℕ) (c₀ c : Cpu) : Type 0 where
  pub satp : c.csr csr_satp ≡ c₀.csr csr_satp
  pub space : c.asid ≡ c₀.asid
  pub mode : c.privilege ≡ c₀.privilege
  pub execute_only : c.mxr ≡ c₀.mxr
  pub user_pages : c.sum ≡ c₀.sum
  pub entries : (j : ℕ) → j < tlb_size → IsBacked word root c₀.asid (c.tlb j)

-- The root of the tables that `satp` names.
abbrev pub root_of : Cpu → ℕ
root_of c = c.csr csr_satp % 2 ^ 44 * 2 ^ 12

-- What holds of all entries holds of them after one is set to an entry of which it holds.
update_all :
    (P : TlbEntry → Type 0) (tlb : ℕ → TlbEntry) (i : ℕ) (e : TlbEntry)
    → P e
    → ((j : ℕ) → j < tlb_size → P (tlb j))
    → (j : ℕ) → j < tlb_size
    → P (update tlb i e j)
update_all P tlb i e new old j k = elim (Bool-cases (i == j)) [
  | inl s ↦ rw s new
  | inr s ↦ rw s (old j k)
]

module _ (word : ℕ → ℕ) (root : ℕ) (c₀ : Cpu) where
  pub tlb_hit-IsCoherent :
      (c : Cpu) (va : ℕ) (acc : Access) (i : ℕ)
      → i < tlb_size
      → IsCoherent word root c₀ c
      → IsCoherent word root c₀ ((tlb_hit c va acc i).1)
  unfolding tlb_hit
  tlb_hit-IsCoherent c va acc i l h =
      let e = c.tlb i in
      let granted = tlb_check c acc e.flags in
      record {
        satp = h.satp;
        space = h.space;
        mode = h.mode;
        execute_only = h.execute_only;
        user_pages = h.user_pages;
        entries =
            update_all (IsBacked word root c₀.asid) c.tlb i _
              (touched-IsBacked word root c₀.asid e granted acc c.tlb_cnt (h.entries i l))
              h.entries;
      }

  pub tlb_insert-IsCoherent :
      (undef : Undefined) (mask : undef.ppn_mask ≡ 2 ^ 64 - 1) (c : Cpu) (va pte pa : ℕ)
      (acc : Access)
      → va < 2 ^ 38
      → pte < 2 ^ 54
      → Leads word va 2 root 0 pte
      → (leaf_result undef c va acc 0 pte).0 ≡ some pa
      → IsCoherent word root c₀ c
      → IsCoherent word root c₀ (tlb_insert c va pte c.asid)
  unfolding tlb_insert new_entry
  tlb_insert-IsCoherent undef mask c va pte pa acc low clear w g h =
      let granted = (leaf_result-IsGranted undef mask c va acc 0 pte pa).0 g in
      let fits : table_of pte + 2 ^ 12 ≤ memory_base + memory_size = elim granted.passed [
        | inl z ↦ omega (arith, granted.place, z)
        | inr z ↦ absurd (omega (arith, granted.place, z, clear))
      ] in
      record {
        satp = h.satp;
        space = h.space;
        mode = h.mode;
        execute_only = h.execute_only;
        user_pages = h.user_pages;
        entries =
            update_all (IsBacked word root c₀.asid) c.tlb (victim c) (new_entry c va pte c.asid)
              (rw (h.space) (new_entry-IsBacked word root c₀.asid c va pte low clear w fits))
              h.entries;
      }

-- The copy of `satp` and the record of a fault play no part.
pub same_buffer :
    (word : ℕ → ℕ) (root : ℕ) (c₀ c : Cpu) (copy : ℕ) (f : MemFault)
    → IsCoherent word root c₀ c
    → IsCoherent word root c₀ (record c { satp = copy; mem_fault = f })
same_buffer word root c₀ c copy f h = record {
  satp = h.satp;
  space = h.space;
  mode = h.mode;
  execute_only = h.execute_only;
  user_pages = h.user_pages;
  entries = h.entries;
}
