-- ===== src/Tests/Rounds.antt =====
-- A round of the emulation at a concrete input: `sllw x0, x5, x6` at the start of the RAM.
use risc_v_emulator.Prelude.{ℕ, ◌≡◌, refl, ◌==◌, if◌then◌else◌, Option, none, some, []}
use risc_v_emulator.Machine.{Machine}
use risc_v_emulator.Decode.{cpu_step, decode_and_execute}
use risc_v_emulator.Memory.{memory_read, read_loop}
use risc_v_emulator.Exec.Words.{exec_3b}
use risc_v_emulator.Mmu.Walk.{get_pa}
use risc_v_emulator.Main.Round.{Devices, round, waiting, next, round-round}
use risc_v_emulator.Tests.Board.{hart, undef}
use risc_v_emulator.Tests.Disks.{disk, quiet}

abbrev ram : ℕ → ℕ
ram a = if a == 0 then 0x3b else if a == 1 then 0x90 else if a == 2 then 0x62 else 0

abbrev before : Machine (Devices ℕ)
before = record {
  cpu = hart;
  mem = ram;
  dev = record { disk = disk; plic = quiet; others = λ i. hart; rest = 0 };
}

abbrev stepped : Option (Machine (Devices ℕ)) → Machine (Devices ℕ)
stepped none = before
stepped (some m) = m

abbrev after : Machine (Devices ℕ)
after = stepped (cpu_step undef [] before)

steps : cpu_step undef [] before ≡ some after
unfolding cpu_step decode_and_execute memory_read get_pa read_loop
steps = refl

round-round_example :
    (m' : Machine (Devices ℕ)) × (round undef [] [] 0 before ≡ next m')
    × (round undef [] [] 0 m' ≡ waiting)
unfolding cpu_step decode_and_execute memory_read get_pa read_loop exec_3b
round-round_example = round-round undef [] [] 0 before after refl refl steps refl refl tt
