-- ===== src/Exec/Compressed.antt =====
-- src/instructions.c: the compressed instructions, `exec_c0`, `exec_c1`, `exec_c2`. `instr` is
-- the 16-bit word.
pub mod Quadrant1
pub mod Memory
