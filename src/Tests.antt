-- ===== src/Tests.antt =====
-- The theorems at concrete inputs: a hart in U mode with RAM on the bus.
mod Board
mod Tables
mod Words
mod Traps
mod Devices
mod Disks
mod Loading
mod Trees
mod Rounds
mod Paging
mod Runs
mod Buffer
mod Ports
