-- ===== src/Exec.antt =====
-- src/instructions.c: the handlers of the instructions, in groups, and what is proved of them.
pub mod Fields
pub mod Alu
pub mod Words
pub mod Branch
pub mod System
pub mod Access
pub mod Compressed
pub mod Zero
pub mod Count
