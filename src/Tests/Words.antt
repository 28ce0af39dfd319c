-- ===== src/Tests/Words.antt =====
-- Instruction words, the bus and the CLINT registers at concrete inputs.
use risc_v_emulator.Prelude.{ℕ, ◌-◌, ◌^◌, ◌≡◌, ◌↔◌, ◌⊎◌, refl, arith, true, false}
use risc_v_emulator.Prelude.{[], none, some, bits, add64, slt64, sext}
use risc_v_emulator.Cpu.{write_gpr, advance}
use risc_v_emulator.Machine.{Region, set_cpu}
use risc_v_emulator.Exec.Access.{exec_load, exec_store}
use risc_v_emulator.Exec.Access.RoundTrip.{exec_load-exec_store}
use risc_v_emulator.Exec.Alu.{exec_div}
use risc_v_emulator.Exec.Alu.Signed.{IsQuotient, exec_div-IsQuotient}
use risc_v_emulator.Exec.Branch.Encoding.{encode_b, encode_j}
use risc_v_emulator.Decode.{decode_and_execute}
use risc_v_emulator.Decode.Totality.{calls_null, decode_and_execute-none}
use risc_v_emulator.Decode.Zero.{zero_after, decode_and_execute-zero}
use risc_v_emulator.Decode.Targets.{branch_target}
use risc_v_emulator.Decode.Branches.{with_pc, pc_after, branch_lem, exec_blt_lem, exec_jal_lem}
use risc_v_emulator.Tests.Board.{hart, machine, undef, ram_bus, ram_bus-AllKeep, machine-IsBytes}

-- `sll x1, x1, x2`.
decode_and_execute-none_example :
    (decode_and_execute undef ram_bus 0x2090b3 machine ≡ none) ↔ (calls_null 0x2090b3 ≡ true)
decode_and_execute-none_example = decode_and_execute-none undef ram_bus 0x2090b3 machine

-- `addi x0, x0, 5`.
decode_and_execute-zero_example : zero_after (decode_and_execute undef ram_bus 0x500013 machine) ≡ 0
decode_and_execute-zero_example =
    decode_and_execute-zero undef ram_bus ram_bus-AllKeep 0x500013 machine refl refl

-- `sb x5, 8(x2)`, then `lb x6, 8(x2)`.
exec_load-exec_store_example :
    (exec_load undef ram_bus 0x810303 (exec_store undef ram_bus 0x510423 machine)).cpu
    ≡ advance (write_gpr (advance hart 4) 6 (2 ^ 64 - 1)) 4
exec_load-exec_store_example =
    exec_load-exec_store undef [] 0 0x510423 0x810303 machine machine-IsBytes refl (omega arith)
      (omega arith) refl refl refl refl (omega arith) (omega arith)

-- `bltu x6, x5, -8`, `blt x6, x5, -8`, `bge x6, x5, -8`, `jal x1, -16`.
branch_lem_example :
    decode_and_execute undef ram_bus (encode_b 6 6 5 0x1ff8) machine
    ≡ some (with_pc machine 0x7ffffff8)
branch_lem_example =
    branch_lem undef ram_bus 6 6 5 0x1ff8 machine refl (omega arith) (omega arith) (omega arith)
      refl

exec_blt_lem_example :
    (pc_after (decode_and_execute undef ram_bus (encode_b 4 6 5 0x1ff8) machine)
      ≡ branch_target 4 7 0x1ff 0x1ff8 0x80000000)
    ↔ ((slt64 7 0x1ff ≡ false) ⊎ (bits 0x1ff8 12 1 ≡ bits 0x1ff8 11 1))
exec_blt_lem_example =
    exec_blt_lem undef ram_bus 6 5 0x1ff8 machine (omega arith) (omega arith) (omega arith)
      (omega arith) refl

exec_jal_lem_example :
    (decode_and_execute undef ram_bus (encode_j 1 0x1ffff0) machine
      ≡ some (with_pc (set_cpu machine (write_gpr hart 1 0x80000004)) 0x7ffffff0))
    × ((add64 0x80000000 (sext 20 0x1ffff0) ≡ add64 0x80000000 (sext 21 0x1ffff0))
        ↔ (bits 0x1ffff0 20 1 ≡ bits 0x1ffff0 19 1))
exec_jal_lem_example =
    exec_jal_lem undef ram_bus 1 0x1ffff0 machine (omega arith) (omega arith) (omega arith) refl

-- A device at 0x1000 that answers 5.
abbrev device : Region ℕ
device = record { base = 0x1000; size = 0x100; read = λ off n m. (5, m); write = λ off v n m. m }

-- `div x7, x5, x6`.
exec_div-IsQuotient_example : (r : ℕ) × IsQuotient 0x1ff 7 ((exec_div hart 0x262c3b3).gpr 7) r
exec_div-IsQuotient_example =
    exec_div-IsQuotient hart 0x262c3b3 (omega arith) (omega arith) (omega arith) (omega arith)
      (omega arith)
