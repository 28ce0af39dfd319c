-- ===== src/Virtio.antt =====
-- src/virtio_blk.c and virtio_blk.h: the virtio disk, with the disk image as an array of bytes.
pub mod Queue
pub mod Registers
pub mod Transfer
pub mod Cache
use risc_v_emulator.Prelude.{
  ℕ, zero, suc, ◌+◌, ◌-◌, ◌*◌, ◌/◌, ◌%◌, ◌^◌, Bool, true, false, ◌==◌, ◌&&◌, ◌||◌, not, ltb, leb,
  if◌then◌else◌, Option, none, some, ◌>>=◌, List, [], ◌∷◌, ◌++◌, update, bit, bit_or, u16, u32, u64,
  add64, mul64,
}
use risc_v_emulator.Cpu.{Cpu}
use risc_v_emulator.Machine.{Machine, Region, Undefined, set_cpu}
use risc_v_emulator.Memory.{memory_read, memory_write}
use risc_v_emulator.Bus.{bus_read, bus_write}
use risc_v_emulator.Mmu.Tlb.{load}
use risc_v_emulator.Mmu.Walk.{get_pa}
use risc_v_emulator.Plic.{Plic, Board, plic_set_irq}

-- `struct disk_operation`, without its list entry and `data_phys_addr`.
pub record DiskOperation : Type 0 where
  pub head_desc_idx : ℕ
  pub start_time : ℕ
  pub completion_time : ℕ
  pub completed : Bool
  pub kind : ℕ
  pub sector : ℕ

-- `BlockCache`.
pub record BlockCache : Type 0 where
  pub blockno : ℕ
  pub bytes : ℕ → ℕ
  pub valid : Bool

-- `virtio_blk_device` with the globals of the file: `pending_ops`, `bc` and the static `prev_avail`.
pub record Disk : Type 0 where
  pub disk_size_sectors : ℕ
  pub disk_data : ℕ → ℕ
  pub queue_num : ℕ
  pub desc_addr : ℕ
  pub avail_ring : ℕ
  pub used_ring : ℕ
  pub last_used_idx : ℕ
  pub queue_ready : ℕ
  pub status : ℕ
  pub interrupt_status : ℕ
  pub pending_ops : List DiskOperation
  pub bc : BlockCache
  pub prev_avail : ℕ

abbrev pub bsize : ℕ
bsize = 1024

abbrev pub disk_latency_cycles : ℕ
disk_latency_cycles = 1000

unfoldable pub load_block : ℕ → Disk → Disk
load_block blockno d =
    let read =
      λ (i : ℕ). if ltb i bsize then d.disk_data (mul64 blockno bsize + i) else d.bc.bytes i in
    if d.bc.valid && d.bc.blockno == blockno
    then d
    else record d { bc = record { blockno = blockno; bytes = read; valid = true } }

-- The disk with the machine of hart 0, the interrupt controller and the other harts.
pub record Host (D : Type 0) : Type 0 where
  pub disk : Disk
  pub machine : Machine D
  pub plic : Plic
  pub others : ℕ → Cpu

module _ {D : Type 0} where
  abbrev pub with_disk : Host D → Disk → Host D
  with_disk h d = record h { disk = d }

  abbrev pub with_machine : Host D → Machine D → Host D
  with_machine h m = record h { machine = m }

  -- `plic_set_irq(VIRTIO_IRQ, 1)` on the array of harts, whose first is the machine's.
  unfoldable pub raise_irq : Host D → Host D
  raise_irq h =
      let b =
        plic_set_irq 1 true (record { plic = h.plic; cpus = update h.others 0 h.machine.cpu }) in
      record h { machine = set_cpu h.machine (b.cpus 0); plic = b.plic; others = b.cpus }

  abbrev pub phys_read : ℕ → ℕ → Host D → ℕ × Host D
  phys_read addr size h = let r = memory_read addr size h.machine in (r.0, with_machine h (r.1))

  abbrev pub phys_write : ℕ → ℕ → ℕ → Host D → Host D
  phys_write addr value size h = with_machine h (memory_write addr value size h.machine)

  unfoldable pub get_avail_idx : Host D → ℕ × Host D
  get_avail_idx h = let r = phys_read (add64 h.disk.avail_ring 2) 2 h in (u16 (r.0), r.1)

  -- The first descriptor leads to the request, which has the kind and the sector.
  unfoldable pub start_async_disk_operation : ℕ → Host D → Host D
  start_async_disk_operation head h =
      let desc = phys_read (add64 h.disk.desc_addr (head * 16)) 8 h in
      let kind = phys_read (desc.0) 4 (desc.1) in
      let sector = phys_read (add64 (desc.0) 8) 8 (kind.1) in
      let h' = sector.1 in
      let now = h'.machine.cpu.cycle_count in
      let op : DiskOperation = record {
        head_desc_idx = head;
        start_time = now;
        completion_time = add64 now disk_latency_cycles;
        completed = false;
        kind = u32 (kind.0);
        sector = sector.0;
      } in
      with_disk h' (record h'.disk { pending_ops = op ∷ h'.disk.pending_ops })

module _ {D : Type 0} (undef : Undefined) (bus : List (Region D)) where
  -- The body of the loop of `process_queue`.
  unfoldable pub start_next : Host D → Host D
  start_next h =
      let d = h.disk in
      let index = d.prev_avail % d.queue_num in
      let r = bus_read undef bus (add64 (add64 d.avail_ring 4) (index * 2)) 2 h.machine in
      let started = start_async_disk_operation (u16 (r.0)) (with_machine h (r.1)) in
      with_disk started (record started.disk { prev_avail = u16 (d.prev_avail + 1) })

  -- A queue of no places stops the emulator: the index is taken modulo the size of the queue.
  unfoldable pub take_next : Host D → Option (Host D)
  take_next h = if h.disk.queue_num == 0 then none else some (start_next h)

  -- `while (prev_avail != last_avail)`, for `fuel` rounds at most.
  unfoldable pub queue_loop : ℕ → ℕ → Host D → Option (Host D)
  queue_loop zero last h = if h.disk.prev_avail == last then some h else none
  queue_loop (suc fuel) last h = elim (h.disk.prev_avail == last) [
    | true ↦ some h
    | false ↦ take_next h >>= queue_loop fuel last
  ]

  -- The indices have 16 bits, so that there are fewer than 2 ^ 16 rounds.
  unfoldable pub process_queue : Host D → Option (Host D)
  process_queue h =
      let r = get_avail_idx h in
      if h.disk.queue_ready == 0 then some h else queue_loop (2 ^ 16) (r.0) (r.1)
