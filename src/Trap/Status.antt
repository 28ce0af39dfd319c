-- ===== src/Trap/Status.antt =====
-- src/trap.c and the returns of src/instructions.c: the status registers bit by bit.

use risc_v_emulator.Prelude.{ℕ, ◌%◌, ◌≤◌, ◌<◌, true, false}
use risc_v_emulator.Prelude.{◌&&◌, ◌||◌, not, if◌then◌else◌, ◌==◌, ltb, bit, bits}
use risc_v_emulator.Prelude.{◌≡◌, ◌⊎◌, arith}
use risc_v_emulator.Prelude.Flags.{flags, bit-field_outside, bit_ext, bit-shl, bit-shr, bit-mod}
use risc_v_emulator.Trap.{sstatus_on_trap, sstatus_on_sret, mstatus_on_trap, mstatus_on_mret}

-- `sstatus` after a trap and after a return, bit by bit.
pub sstatus_on_trap_bits :
    (s p j : ℕ)
    → bit (sstatus_on_trap s p) j
      ≡ (if 8 == j then p == 1 else if 1 == j then false else if 5 == j then bit s 1 else bit s j)
unfolding sstatus_on_trap
sstatus_on_trap_bits s p j = simp flags (ground arith)

pub sstatus_on_sret_bits :
    (s j : ℕ)
    → bit (sstatus_on_sret s) j
      ≡ (if 5 == j then false else if 1 == j then bit s 5 else if 8 == j then false else bit s j)
unfolding sstatus_on_sret
sstatus_on_sret_bits s j = simp flags (ground arith)

-- `mstatus` likewise, but for MPP on the way in.
pub mstatus_on_trap_bits :
    (s p j : ℕ)
    → (j < 11) ⊎ (13 ≤ j)
    → bit (mstatus_on_trap s p) j
      ≡ (if 3 == j then false else if 7 == j then bit s 3 else ltb j 32 && bit s j)
unfolding mstatus_on_trap
mstatus_on_trap_bits s p j h = simp flags (ground (arith, bit-field_outside p 2 11 j h))

pub mstatus_on_mret_bits :
    (s j : ℕ)
    → bit (mstatus_on_mret s) j ≡ (
        if 7 == j
        then true
        else if 3 == j
        then bit s 7
        else if (11 == j || 12 == j) || not (ltb j 32)
        then false
        else bit s j)
unfolding mstatus_on_mret
mstatus_on_mret_bits s j = simp flags (ground arith)

pub mpp_on_trap : (s p : ℕ) → bits (mstatus_on_trap s p) 11 2 ≡ p % 4
unfolding mstatus_on_trap
mpp_on_trap s p =
    bit_ext _ _ λ j. simp (flags, bit-shr) (ground (arith, bit-shl (p % 4) 11 j, bit-mod p 2 j))
