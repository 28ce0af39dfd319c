-- ===== src/Lib.antt =====
-- The RISC-V emulator: one hart (src/cpu.h), its instruction handlers (src/instructions.c) and
-- decoder (src/decode.c), the Sv39 translation (src/mmu.c), traps (src/trap.c), the timer device
-- (src/clint.c), the interrupt controller (src/plic.c), the serial port (src/uart.c), the
-- virtio disk (src/virtio_blk.c), the bus with its RAM (src/bus.c, src/memory.c), the ELF loaders
-- (src/elf_load.c), the start (src/main.c, `cpu_init` of src/cpu.c), and a writer of device trees
-- (src/dts.c), which nothing calls.
--
-- A step fetches an instruction word through the translation and the RAM, sends it through the
-- opcode tables to a handler, and counts; the main loop then checks for interrupts. Loads, stores
-- and atomic operations translate an address and go through the bus, whose regions are devices. A
-- device raises a line of the interrupt controller, which sets the external interrupt of a hart.
--
-- Prelude has wrap-around arithmetic, bit fields and flags of machine words, and arrays as
-- functions. Cpu is `CPU_State` as a record. Machine is the hart, the bytes of RAM and the state
-- of the devices; a region of the bus acts on the machine. Memory and Bus model src/memory.c and
-- src/bus.c; Mmu/Tlb the translation buffer and Mmu/Walk the page walk and `get_pa` of src/mmu.c;
-- Mmu/Rules reads page tables by the bits of their entries, Mmu/Sv39 puts them in the RAM,
-- Mmu/Tables has the walk on tables and Mmu/Coherent says when the buffer agrees with them;
-- Trap src/trap.c with `exec_mret` and `exec_sret`, Trap/Machine what is of M mode; Clint
-- src/clint.c. Exec has the handlers by groups, Exec/Compressed `exec_c0`, `exec_c1` and
-- `exec_c2`; Exec/Zero is about register 0 over all of them, Exec/Count about the count of
-- instructions. Decode has the opcode tables, `fetch_instruction` and `cpu_step`, Decode/Run the
-- loop of `cpu_run`. Plic has `plic_claim`, `plic_update` and the other operations of the
-- controller on its state and the harts; Plic/Registers has the register handlers, the start, and
-- the events that reach the controller. Uart has the serial port with its lock; Uart/Writer its
-- writer thread, Uart/Frame `uart_update`, Uart/Queue a ring buffer,
-- Uart/Registers the register handlers. Virtio has the disk's queue, Virtio/Transfer the
-- completion of its operations with the block cache, Virtio/Registers the register handlers. Elf
-- has `load_elf64_SBI`, Elf/Bare and Elf/Virt the loaders of 32-bit files, over what the C
-- library reads from the file. Main has the devices that `main` registers and the machine that it
-- starts, Main/Map the addresses of the devices, Main/Round a round of the loop of `main`. Dts
-- has the writers of a device tree, Dts/Source the calls that make the tree, Dts/Encoding the
-- bytes of a call. Tests has the theorems at concrete inputs.
--
-- Functions have the names of the source. A value of an unsigned type of w bits is a natural number,
-- and wrap-around is written out; a signed value is kept as its bit pattern. A pointer argument is
-- the state before and the result the state after. Loops of the source run a fixed number of rounds
-- (the bytes of an access, the 64 entries of the buffer, the three levels of the walk), over which
-- the model recurs, so that there is no fuel there. The loop of `process_queue` has 2 ^ 16 rounds of
-- fuel, enough for indices of 16 bits. The loops of `cpu_run` and of `uart_tx_thread` have their fuel as
-- an argument: 1002 rounds are enough for the one, since it stops on the count of instructions, and one
-- round more than there are bytes for the other. A chain of descriptors, which the guest can close to a
-- ring, has its fuel as an argument too. A call through a NULL table entry is `none`; so is a thread of
-- the serial port that asks for a lock that it holds.
--
-- Where the C text has no defined value (`1u << 63`, `(1 << 44) - 1`, a function that ends without a
-- return) the value is a parameter, the record `Undefined`. The theorems on the walk take for the second
-- the mask with all bits, which it is where the shift of an `int` past its width gives 0. The devices are the list of regions.
--
-- The controller acts on the array of harts (`Board`). The serial port has its board with it, and the
-- disk the machine of hart 0 with the controller and the other harts (`Host`); the disk's own
-- registers are not among the regions of its bus. A file that a loader reads is a record of what the
-- C library returns. A round of the main loop has one list of regions for the hart and one for the
-- disk; a hart that waits for a signal is an outcome of the round.
--
-- Not modelled: log output, threads and all locks but the serial port's, memory order, the host's
-- terminal, and the end of the disk image. Of the code that nothing calls, the loaders of 32-bit files,
-- `memory_load_binary`, `cpu_run`, `do_mret`, `should_delegate_to_smode`, `uart_update`,
-- `init_page_table` (Mmu/Physical), the handlers of src/trap_vector.c (Main/Vector) and the device tree
-- are modelled; what only prints or only sets up the host's files and terminal is not.
pub mod Prelude
pub mod Cpu
pub mod Machine
pub mod Memory
pub mod Bus
pub mod Mmu
pub mod Trap
pub mod Clint
pub mod Exec
pub mod Decode
pub mod Plic
pub mod Uart
pub mod Virtio
pub mod Elf
pub mod Main
pub mod Dts
pub mod Tests
