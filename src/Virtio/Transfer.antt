-- ===== src/Virtio/Transfer.antt =====
-- src/virtio_blk.c: the completion of an operation, `complete_disk_operation` and
-- `virtio_disk_update`. The image has no end here. The disk's own registers are not among the regions that a buffer lies in.
use risc_v_emulator.Prelude.{
  ℕ, zero, suc, ◌+◌, ◌-◌, ◌*◌, ◌/◌, ◌%◌, Bool, true, false, ◌==◌, ◌&&◌, ◌||◌, not, ltb, leb,
  if◌then◌else◌, Option, none, some, ◌>>=◌, List, [], ◌∷◌, update, bit, u8, u16, u32, add64, mul64,
}
use risc_v_emulator.Machine.{Region, Undefined}
use risc_v_emulator.Bus.{bus_read, bus_write}
use risc_v_emulator.Mmu.Tlb.{load}
use risc_v_emulator.Mmu.Walk.{get_pa}
use risc_v_emulator.Virtio.{
  Disk, DiskOperation, Host, bsize, load_block, with_disk, with_machine, raise_irq, phys_read,
  phys_write,
}

-- `dev.disk_data[disk_offset + i] = bc.data[i]` for the bytes of a block.
unfoldable pub store_block : ℕ → Disk → Disk
store_block blockno d =
    let start = mul64 blockno bsize in
    record d {
      disk_data = λ a.
          if leb start a && ltb a (start + bsize) then d.bc.bytes (a - start) else d.disk_data a;
    }

abbrev pub with_cache : Disk → (ℕ → ℕ) → Disk
with_cache d bytes = record d { bc = record d.bc { bytes = bytes } }

module _ {D : Type 0} (undef : Undefined) (bus : List (Region D)) where
  -- The cache to the guest's buffer, with `left` bytes to go.
  unfoldable pub copy_out : ℕ → ℕ → ℕ → Host D → Host D
  copy_out data_addr zero i h = h
  copy_out data_addr (suc left) i h =
      copy_out data_addr left (i + 1)
        (with_machine h (bus_write bus (add64 data_addr i) (h.disk.bc.bytes i) 1 h.machine))

  -- The guest's buffer to the cache.
  unfoldable pub copy_in : ℕ → ℕ → ℕ → Host D → Host D
  copy_in data_addr zero i h = h
  copy_in data_addr (suc left) i h =
      let r = bus_read undef bus (add64 data_addr i) 1 h.machine in
      let bytes = update h.disk.bc.bytes i (u8 (r.0)) in
      copy_in data_addr left (i + 1) (with_disk (with_machine h (r.1)) (with_cache h.disk bytes))

  -- A read or a write of the block of an even sector. Of an odd one the source goes past the end of
  -- the cache.
  unfoldable pub transfer : ℕ → ℕ → ℕ → Host D → Host D
  transfer kind blockno data_addr h =
      let loaded = with_disk h (load_block blockno h.disk) in
      let filled = copy_in data_addr bsize 0 loaded in
      if kind == 0
      then copy_out data_addr bsize 0 loaded
      else if kind == 1
      then with_disk filled (store_block blockno filled.disk)
      else h

  -- The chain of descriptors from one on: the address of the request and that of the data. The last
  -- one's status byte is cleared. `none` is a chain of more than `fuel` descriptors.
  unfoldable pub chain_loop : ℕ → ℕ → ℕ → ℕ → ℕ → Host D → Option (ℕ × ℕ × Host D)
  chain_loop zero head desc_idx req_addr data_addr h = none
  chain_loop (suc fuel) head desc_idx req_addr data_addr h =
      let desc_base = add64 h.disk.desc_addr (desc_idx * 16) in
      let f = phys_read desc_base 8 h in
      let pa = get_pa undef bus (f.0) load (f.1.machine) in
      let len = phys_read (add64 desc_base 8) 4 (with_machine (f.1) (pa.1)) in
      let flags = phys_read (add64 desc_base 12) 2 (len.1) in
      let next = phys_read (add64 desc_base 14) 2 (flags.1) in
      let more = bit (flags.0) 0 in
      let first = desc_idx == head in
      let req = if first then pa.0 else req_addr in
      let buffer = if first then data_addr else if more then pa.0 else data_addr in
      elim more [
        | true ↦ chain_loop fuel head (u16 (next.0)) req buffer (next.1)
        | false ↦ some (req, buffer, phys_write (pa.0) 0 1 (next.1))
      ]

  -- The used ring takes the operation, and the interrupt is raised.
  unfoldable pub report : ℕ → Host D → Host D
  report head h =
      let used = h.disk.used_ring in
      let r = phys_read (add64 used 2) 2 h in
      let used_idx = u16 (r.0) in
      let entry = add64 used (4 + used_idx % h.disk.queue_num * 8) in
      let h₁ = phys_write (add64 entry 4) 512 4 (phys_write entry head 2 (r.1)) in
      let h₂ = phys_write (add64 used 2) (u16 (used_idx + 1)) 2 h₁ in
      raise_irq (with_disk h₂ (record h₂.disk { interrupt_status = 1 }))

  -- The input and output of a request that has an address and a buffer.
  unfoldable pub serve : ℕ → ℕ → Host D → Option (Host D)
  serve req_addr data_addr h =
      let kind = phys_read req_addr 4 h in
      let sector = phys_read (add64 req_addr 8) 8 (kind.1) in
      if req_addr == 0 || data_addr == 0
      then some h
      else if sector.0 % 2 == 0 || leb 2 (u32 (kind.0))
      then some (transfer (u32 (kind.0)) (sector.0 / 2) data_addr (sector.1))
      else none

  -- `none` where the source has no defined behaviour: a chain without end, an odd sector, a queue of
  -- no places.
  unfoldable pub complete_disk_operation : ℕ → DiskOperation → Host D → Option (Host D)
  complete_disk_operation fuel op h = do
    chain ← chain_loop fuel op.head_desc_idx op.head_desc_idx 0 0 h
    served ← serve (chain.0) (chain.1) (chain.2)
    if served.disk.queue_num == 0 then none else some (report op.head_desc_idx served)

  -- `!op->completed && *current_cycle >= op->completion_time`.
  abbrev pub is_due : ℕ → DiskOperation → Bool
  is_due now op = not op.completed && leb op.completion_time now

  unfoldable pub not_due : ℕ → List DiskOperation → List DiskOperation
  not_due now [] = []
  not_due now (op ∷ ops) = if is_due now op then not_due now ops else op ∷ not_due now ops

  unfoldable pub complete_due : ℕ → ℕ → List DiskOperation → Host D → Option (Host D)
  complete_due fuel now [] h = some h
  complete_due fuel now (op ∷ ops) h = elim (is_due now op) [
    | true ↦ complete_disk_operation fuel op h >>= complete_due fuel now ops
    | false ↦ complete_due fuel now ops h
  ]

  -- Each operation that is due is completed and taken off the list.
  unfoldable pub virtio_disk_update : ℕ → ℕ → Host D → Option (Host D)
  virtio_disk_update fuel now h = do
    h' ← complete_due fuel now h.disk.pending_ops h
    some (with_disk h' (record h'.disk { pending_ops = not_due now h.disk.pending_ops }))
