-- ===== src/Mmu.antt =====
-- src/mmu.c: address translation.
pub mod Tlb
pub mod Walk
pub mod Flush
pub mod Refill
pub mod Tables
pub mod Pages
pub mod Backed
pub mod Effects
pub mod Coherent
pub mod Agreement
pub mod Answers
pub mod Transparent
pub mod Rules
pub mod Sv39
pub mod Physical
