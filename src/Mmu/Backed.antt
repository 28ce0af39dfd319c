-- ===== src/Mmu/Backed.antt =====
-- src/mmu.c: entries of the translation lookaside buffer that agree with the page tables in memory.
use risc_v_emulator.Prelude.{
  ℕ, ◌+◌, ◌*◌, ◌/◌, ◌%◌, ◌^◌, ◌<◌, ◌≤◌, ◌≡◌, refl, arith, ap, ◌∙◌, Bool, true, false, ◌==◌, ◌&&◌,
  not, if◌then◌else◌, Bool-cases, inl, inr, bit, bit_or, bits, u64,
}
use risc_v_emulator.Prelude.Bits.{bit_or_fields, bit_or_fields_flip}
use risc_v_emulator.Prelude.Flags.{bit-set_bit}
use risc_v_emulator.Cpu.{Cpu, TlbEntry}
use risc_v_emulator.Machine.{memory_base, memory_size}
use risc_v_emulator.Mmu.Tlb.{
  Access, fetch, load, store, ok, fault, allows, touched, tlb_check, tlb_hit, vpn_of, matches,
  new_entry,
}
use risc_v_emulator.Mmu.Walk.{leaf_mode_allows, pte_is_valid}
use risc_v_emulator.Mmu.Refill.{flags_of_lem}
use risc_v_emulator.Mmu.Tables.{table_of, frame, Leads, leaf, pointer}
use risc_v_emulator.Mmu.Pages.{Leads-page}

-- Two words of flags with the same V, R, W, X and U.
abbrev pub SameRights : ℕ → ℕ → Type 0
SameRights f g =
    (bit f 0 ≡ bit g 0)
    × (bit f 1 ≡ bit g 1)
    × (bit f 2 ≡ bit g 2)
    × (bit f 3 ≡ bit g 3)
    × (bit f 4 ≡ bit g 4)

-- What the tables have for a page that an entry serves: a leaf of level 0 in the RAM, with the
-- rights and the page number of the entry.
pub record IsBacking (word : ℕ → ℕ) (root va : ℕ) (e : TlbEntry) (pte : ℕ) : Type 0 where
  pub leads : Leads word va 2 root 0 pte
  pub rights : SameRights e.flags pte
  pub number : e.ppn ≡ bits pte 10 44
  pub clear : pte < 2 ^ 54
  pub in_ram : table_of pte + 2 ^ 12 ≤ memory_base + memory_size

-- An entry is backed if the tables have all the pages below 2 ^ 38 that it serves in an address space.
pub IsBacked : (ℕ → ℕ) → ℕ → ℕ → TlbEntry → Type 0
IsBacked word root asid e =
    (va : ℕ)
    → va < 2 ^ 38
    → matches e (vpn_of va) asid ≡ true
    → (pte : ℕ) × IsBacking word root va e pte

pub IsBacked-at :
    (word : ℕ → ℕ) (root asid : ℕ) (e : TlbEntry) (va : ℕ)
    → IsBacked word root asid e
    → va < 2 ^ 38
    → matches e (vpn_of va) asid ≡ true
    → (pte : ℕ) × IsBacking word root va e pte
unfolding IsBacked
IsBacked-at word root asid e va back low h = back va low h

-- No address is served by an entry that is not valid.
pub invalid-IsBacked :
    (word : ℕ → ℕ) (root asid : ℕ) (e : TlbEntry) → e.valid ≡ false → IsBacked word root asid e
unfolding IsBacked matches
invalid-IsBacked word root asid e v va low h = absurd cc

-- An address goes on to a leaf that is valid.
pub Leads-valid :
    {word : ℕ → ℕ} {va i t j pte : ℕ} → Leads word va i t j pte → pte_is_valid pte ≡ true
Leads-valid (leaf i t v l) = v
Leads-valid (pointer i t j pte v l w) = Leads-valid w

used_rights :
    (granted : Bool) (acc : Access) (f g : ℕ)
    → SameRights f g
    → SameRights (if granted then touched acc f else f) g
used_rights false acc f g h = h
used_rights true fetch f g h = simp bit-set_bit h
used_rights true load f g h = simp bit-set_bit h
used_rights true store f g h = simp bit-set_bit h

-- The check of a hit and the checks of the walk differ for a fetch in S mode under SUM only.
abbrev pub checked_alike : Cpu → Access → Bool
checked_alike c fetch = not (c.privilege == 1 && not (c.sum == 0))
checked_alike c load = true
checked_alike c store = true

tlb_check_lem :
    (c : Cpu) (acc : Access) (f pte : ℕ)
    → SameRights f pte
    → pte_is_valid pte ≡ true
    → checked_alike c acc ≡ true
    → tlb_check c acc f ≡ (leaf_mode_allows c acc pte && allows c acc pte)
unfolding tlb_check
tlb_check_lem c fetch f pte (r₀, r₁, r₂, r₃, r₄) v s = rw (r₀, r₃, r₄) (ground arith)
tlb_check_lem c load f pte (r₀, r₁, r₂, r₃, r₄) v s = rw (r₀, r₁, r₃, r₄) (ground arith)
tlb_check_lem c store f pte (r₀, r₁, r₂, r₃, r₄) v s = rw (r₀, r₂, r₄) (ground arith)

-- Pages below 2 ^ 38 are told apart by the number that a lookup compares.
vpn_of-page :
    (va va' : ℕ) → va < 2 ^ 38 → va' < 2 ^ 38 → vpn_of va ≡ vpn_of va' → va / 2 ^ 12 ≡ va' / 2 ^ 12
vpn_of-page va va' h h' e = omega arith

new_entry-vpn_of :
    (c : Cpu) (va va' pte asid : ℕ)
    → matches (new_entry c va pte asid) (vpn_of va') asid ≡ true
    → vpn_of va ≡ vpn_of va'
unfolding matches new_entry
new_entry-vpn_of c va va' pte asid h =
    let tag = λ (x : ℕ). bit_or_fields_flip 26 asid (vpn_of x) (omega arith) in
    elim (Bool-cases (bit pte 5)) [
      | inl e ↦ ground (arith, e)
      | inr e ↦ ground (arith, e, tag va, tag va')
    ]

module _ (word : ℕ → ℕ) (root asid : ℕ) where
  -- The entry that is made for a leaf of level 0 is backed.
  pub new_entry-IsBacked :
      (c : Cpu) (va pte : ℕ)
      → va < 2 ^ 38
      → pte < 2 ^ 54
      → Leads word va 2 root 0 pte
      → table_of pte + 2 ^ 12 ≤ memory_base + memory_size
      → IsBacked word root asid (new_entry c va pte asid)
  unfolding IsBacked new_entry
  new_entry-IsBacked c va pte low clear w fits va' low' h = (
    pte,
    record {
      leads =
          Leads-page word va va'
            (vpn_of-page va va' low low' (new_entry-vpn_of c va va' pte asid h)) w;
      rights = flags_of_lem pte;
      number = refl;
      clear = clear;
      in_ram = fits;
    },
  )

  -- A use of an entry leaves it backed.
  pub touched-IsBacked :
      (e : TlbEntry) (granted : Bool) (acc : Access) (t : ℕ)
      → IsBacked word root asid e
      → IsBacked word root asid
          (record e { last_used = t; flags = if granted then touched acc e.flags else e.flags })
  unfolding IsBacked matches
  touched-IsBacked e granted acc t back va low h =
      let (pte, b) = back va low h in
      (
        pte,
        record {
          leads = b.leads;
          rights = used_rights granted acc e.flags pte b.rights;
          number = b.number;
          clear = b.clear;
          in_ram = b.in_ram;
        },
      )

  -- What a hit of a backed entry gives is what the tables have.
  pub backed-hit :
      (c : Cpu) (va : ℕ) (acc : Access) (i pte : ℕ)
      → checked_alike c acc ≡ true
      → IsBacking word root va (c.tlb i) pte
      → (tlb_hit c va acc i).0
        ≡ (if leaf_mode_allows c acc pte && allows c acc pte then ok (frame va pte 0) else fault)
  unfolding tlb_hit
  backed-hit c va acc i pte alike b =
      let place : bit_or (u64 ((c.tlb i).ppn * 2 ^ 12)) (va % 2 ^ 12) ≡ frame va pte 0 =
        ap (λ (x : ℕ). bit_or x (va % 2 ^ 12)) (ground (arith, b.number, b.clear))
        ∙ bit_or_fields 12 (pte / 2 ^ 10 % 2 ^ 52) (va % 2 ^ 12) (omega arith) in
      rw (tlb_check_lem c acc (c.tlb i).flags pte b.rights (Leads-valid b.leads) alike, place) refl
