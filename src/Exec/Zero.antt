-- ===== src/Exec/Zero.antt =====
-- src/instructions.c: register 0. `main` halts the hart when it is found not to be 0, so the
-- handlers have to leave it alone.
pub mod Devices
pub mod Words
pub mod Accesses
use risc_v_emulator.Prelude.{
  ℕ, ◌+◌, ◌*◌, ◌/◌, ◌%◌, ◌^◌, Bool, true, false, ◌==◌, ◌&&◌, ◌||◌, not, if◌then◌else◌,
}
use risc_v_emulator.Prelude.{bits}
use risc_v_emulator.Exec.Fields.{rd, rs2, funct3, funct7}

-- The words that write register 0: `sllw`, `fmv.x.w` and `fmv.x.d` with `rd` 0, `div` with both
-- `rd` and `rs2` 0, and `c.ldsp` with `rd` 0 (which the ISA reserves).
abbrev pub writes_zero : ℕ → Bool
writes_zero i =
    rd i == 0
    && (if bits i 0 7 == 0x3b
        then funct7 i == 0 && funct3 i == 1
        else if bits i 0 7 == 0x53
        then (funct7 i == 0x70 || funct7 i == 0x71) && (rs2 i == 0 && funct3 i == 0)
        else if bits i 0 7 == 0x33
        then funct7 i == 1 && (funct3 i == 4 && rs2 i == 0)
        else bits i 0 2 == 2 && bits i 13 3 == 3)
