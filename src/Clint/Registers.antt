-- ===== src/Clint/Registers.antt =====
-- src/clint.c: the memory-mapped registers.
use risc_v_emulator.Prelude.{ℕ, ◌+◌, ◌*◌, ◌%◌, ◌^◌, ◌<◌, ◌≡◌, arith}
use risc_v_emulator.Prelude.{Bool, true, false}
use risc_v_emulator.Cpu.{Cpu, Clint}
use risc_v_emulator.Clint.{clint_base, clint_size, clint_read, clint_write}
use risc_v_emulator.Clint.Timer.{mtime_lem, mtimecmp_lem}

-- The address of `mtimecmp` or of `mtime`.
abbrev pub register : Bool → ℕ
register true = clint_base + 0xbff8
register false = clint_base + 0x4000

-- A value written whole to `mtimecmp` or `mtime` is read back, and one written as two words, the
-- lower first, is read back as the two words joined.
pub clint_read-clint_write :
    (is_time : Bool) (v w : ℕ) (c : Cpu)
    → let reg = register is_time in
      (clint_read (clint_write reg v 8 c).clint reg 8 ≡ v)
      × (clint_read (clint_write (reg + 4) w 4 (clint_write reg v 4 c)).clint reg 8
          ≡ w % 2 ^ 32 * 2 ^ 32 + v % 2 ^ 32)
unfolding clint_read clint_write
clint_read-clint_write true v w c = (mtime_lem _, simp mtime_lem (omega arith))
clint_read-clint_write false v w c = (mtimecmp_lem _, simp mtimecmp_lem (omega arith))

-- The bus gives a region's handler the offset of an access, and these handlers subtract the base
-- address from it once more: at every offset of the region reads give 0 and writes do nothing.
pub clint_offset_lem :
    (t : Clint) (c : Cpu) (off v n : ℕ)
    → off < clint_size
    → (clint_read t off n ≡ 0) × (clint_write off v n c ≡ c)
unfolding clint_read clint_write
clint_offset_lem t c off v n h = (ground arith, ground arith)
