-- ===== src/Clint.antt =====
-- src/clint.c: the timer device of a hart. Its interrupt state is in the CSRs of `cpu[0]`, which
-- is the hart that holds the device.
pub mod Registers
pub mod Timer
use risc_v_emulator.Prelude.{
  ℕ, ◌+◌, ◌-◌, ◌*◌, ◌/◌, ◌%◌, ◌^◌, Bool, false, ◌==◌, ◌&&◌, leb, if◌then◌else◌,
}
use risc_v_emulator.Prelude.{update, bit, set_bit, clear_bit_u32, add64, sub64}
use risc_v_emulator.Cpu.{Cpu, Clint, csr_menvcfg, csr_stimecmp, csr_mcountern, csr_mip, csr_sip}

abbrev pub clint_base : ℕ
clint_base = 0x02000000

abbrev pub clint_size : ℕ
clint_size = 0x10000

-- `clint_init`, which `cpu_init` calls on zeroed memory, and `clint_reset`, which keeps `stimecmp`.
unfoldable pub clint_init : Clint
clint_init = record {
  mtime = 0;
  mtimecmp = 0;
  stimecmp = 0;
  msip = 0;
  timer_interrupt_pending = false;
  software_interrupt_pending = false;
}

unfoldable pub clint_reset : Clint → Clint
clint_reset t = record t {
  mtime = 0;
  mtimecmp = 0;
  msip = 0;
  timer_interrupt_pending = false;
  software_interrupt_pending = false;
}

-- The low and the high half of a 64-bit register, and the register with a half replaced.
abbrev pub low_half : ℕ → ℕ
low_half v = v % 2 ^ 32

abbrev pub high_half : ℕ → ℕ
high_half v = v / 2 ^ 32 % 2 ^ 32

abbrev pub set_low : ℕ → ℕ → ℕ
set_low v w = v / 2 ^ 32 * 2 ^ 32 + w % 2 ^ 32

abbrev pub set_high : ℕ → ℕ → ℕ
set_high v w = v % 2 ^ 32 + w % 2 ^ 32 * 2 ^ 32

unfoldable pub clint_read : Clint → ℕ → ℕ → ℕ
clint_read t addr size =
    let offset = sub64 addr clint_base in
    if offset == 0
    then (if size == 4 then t.msip % 2 else 0)
    else if offset == 0x4000
    then (if size == 8 then t.mtimecmp else if size == 4 then low_half t.mtimecmp else 0)
    else if offset == 0xbff8
    then (if size == 8 then t.mtime else if size == 4 then low_half t.mtime else 0)
    else if offset == 0x4004 && size == 4
    then high_half t.mtimecmp
    else if offset == 0xbffc && size == 4
    then high_half t.mtime
    else 0

-- Sstc: `stimecmp` follows its CSR, and with `mcounteren.TM` the timer bit of `mip` says whether
-- the time has come; `sip` is a copy of `mip`.
unfoldable pub clint_update_interrupts : Cpu → Cpu
clint_update_interrupts c =
    let t = c.clint in
    let t' = if bit (c.csr csr_menvcfg) 63 then record t { stimecmp = c.csr csr_stimecmp } else t in
    let mip = c.csr csr_mip in
    let mip' = if leb t'.stimecmp t'.mtime then set_bit mip 5 else clear_bit_u32 mip 5 in
    let csr' = update (update c.csr csr_mip mip') csr_sip mip' in
    record c { clint = t'; csr = if bit (c.csr csr_mcountern) 1 then csr' else c.csr }

abbrev with_clint : Cpu → Clint → Cpu
with_clint c t = clint_update_interrupts (record c { clint = t })

unfoldable pub clint_write : ℕ → ℕ → ℕ → Cpu → Cpu
clint_write addr value size c =
    let offset = sub64 addr clint_base in
    let t = c.clint in
    if offset == 0
    then (if size == 4 then with_clint c (record t { msip = value % 2 }) else c)
    else if offset == 0x4000
    then with_clint c (record t {
      mtimecmp =
          if size == 8 then value else if size == 4 then set_low t.mtimecmp value else t.mtimecmp;
    })
    else if offset == 0xbff8
    then with_clint c (record t {
      mtime = if size == 8 then value else if size == 4 then set_low t.mtime value else t.mtime;
    })
    else if offset == 0x4004 && size == 4
    then with_clint c (record t { mtimecmp = set_high t.mtimecmp value })
    else if offset == 0xbffc && size == 4
    then with_clint c (record t { mtime = set_high t.mtime value })
    else c

unfoldable pub clint_tick : ℕ → Cpu → Cpu
clint_tick cycles c =
    let t = c.clint in
    if cycles == 0 then c else with_clint c (record t { mtime = add64 t.mtime cycles })
