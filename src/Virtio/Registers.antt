-- ===== src/Virtio/Registers.antt =====
-- src/virtio_blk.c: the memory-mapped registers of the disk.
use risc_v_emulator.Prelude.{
  ℕ, ◌+◌, ◌*◌, ◌/◌, ◌%◌, ◌^◌, ◌<◌, ◌≡◌, arith, ap, Bool, true, ◌==◌, ◌||◌, ◌⊎◌, inl, inr,
  if◌then◌else◌, Option, some, ◌>>=◌, List, bit_or, u16, u32, u64,
}
use risc_v_emulator.Prelude.Bits.{bit_or_fields, bit_or_fields_flip}
use risc_v_emulator.Machine.{Region, Undefined}
use risc_v_emulator.Virtio.{Disk, Host, with_disk, process_queue}

unfoldable pub virtio_mmio_read : ℕ → Disk → ℕ
virtio_mmio_read offset d =
    if offset == 0
    then 0x74726976
    else if offset == 4
    then 2
    else if offset == 8
    then 2
    else if offset == 0xc
    then 0x554d4551
    else if offset == 0x10
    then 2 ^ 5
    else if offset == 0x14
    then 2 ^ 5
    else if offset == 0x34
    then 8
    else if offset == 0x44
    then d.queue_ready
    else if offset == 0x60
    then d.interrupt_status
    else if offset == 0x70
    then d.status
    else if offset == 0x80
    then d.desc_addr % 2 ^ 32
    else if offset == 0x84
    then d.desc_addr / 2 ^ 32
    else if offset == 0x90
    then d.avail_ring % 2 ^ 32
    else if offset == 0xfc
    then 1
    else 0

-- The two halves of an address. The low one is not cut to 32 bits.
abbrev pub put_low : ℕ → ℕ → ℕ
put_low addr value = bit_or (addr / 2 ^ 32 * 2 ^ 32) value

abbrev pub put_high : ℕ → ℕ → ℕ
put_high addr value = bit_or (addr % 2 ^ 32) (u64 (value * 2 ^ 32))

-- The registers that a store only fills.
unfoldable pub fill_register : ℕ → ℕ → Disk → Disk
fill_register offset value d =
    if offset == 0x38
    then record d { queue_num = u16 value }
    else if offset == 0x44
    then record d {
      queue_ready = value % 2;
      last_used_idx = if value % 2 == 0 then d.last_used_idx else 0;
    }
    else if offset == 0x70
    then record d { status = u32 value }
    else if offset == 0x80
    then record d { desc_addr = put_low d.desc_addr value }
    else if offset == 0x84
    then record d { desc_addr = put_high d.desc_addr value }
    else if offset == 0x90
    then record d { avail_ring = put_low d.avail_ring value }
    else if offset == 0x94
    then record d { avail_ring = put_high d.avail_ring value }
    else if offset == 0xa0
    then record d { used_ring = put_low d.used_ring value }
    else if offset == 0xa4
    then record d { used_ring = put_high d.used_ring value }
    else d

module _ {D : Type 0} (undef : Undefined) (bus : List (Region D)) where
  unfoldable pub virtio_mmio_write : ℕ → ℕ → Host D → Option (Host D)
  virtio_mmio_write offset value h =
      if offset == 0x50
      then (if value == 0 then process_queue undef bus h else some h)
      else some (with_disk h (fill_register offset value h.disk))

-- An address in two stores, in the order that a driver uses.
address_set :
    (addr low high : ℕ)
    → low < 2 ^ 32
    → high < 2 ^ 32
    → put_high (put_low addr low) high ≡ high * 2 ^ 32 + low
address_set addr low high l h =
    let whole = bit_or_fields 32 (addr / 2 ^ 32) low l in
    let cut : (addr / 2 ^ 32 * 2 ^ 32 + low) % 2 ^ 32 ≡ low = omega arith in
    let fits : u64 (high * 2 ^ 32) ≡ high * 2 ^ 32 = omega arith in
    rw (whole, cut, fits) (bit_or_fields_flip 32 high low l)

-- The three addresses that a driver gives to the disk: descriptors, available ring, used ring.
unfoldable pub set_address : ℕ → ℕ → Disk → Disk
set_address base addr d =
    if base == 0x80
    then record d { desc_addr = addr }
    else if base == 0x90
    then record d { avail_ring = addr }
    else record d { used_ring = addr }

unfoldable pub is_address : ℕ → Bool
is_address base = base == 0x80 || (base == 0x90 || base == 0xa0)

which_address :
    (base : ℕ) → is_address base ≡ true → (base ≡ 0x80) ⊎ ((base ≡ 0x90) ⊎ (base ≡ 0xa0))
unfolding is_address
which_address base h = ground arith

module _ {D : Type 0} (undef : Undefined) (bus : List (Region D)) where
  -- A driver that stores the low half and then the high half of the address of the descriptors, of
  -- the available ring or of the used ring has set that address, whatever it was, and nothing else
  -- of the disk or the machine.
  pub virtio_mmio_write-virtio_mmio_write :
      (base low high : ℕ) (h : Host D)
      → is_address base ≡ true
      → low < 2 ^ 32
      → high < 2 ^ 32
      → (virtio_mmio_write undef bus base low h >>= virtio_mmio_write undef bus (base + 4) high)
        ≡ some (with_disk h (set_address base (high * 2 ^ 32 + low) h.disk))
  unfolding virtio_mmio_write fill_register set_address
  virtio_mmio_write-virtio_mmio_write base low high h a l k = elim (which_address base a) [
    | inl e ↦ rw e (
        ap (λ v. some (with_disk h (record h.disk { desc_addr = v })))
          (address_set h.disk.desc_addr low high l k))
    | inr (inl e) ↦ rw e (
        ap (λ v. some (with_disk h (record h.disk { avail_ring = v })))
          (address_set h.disk.avail_ring low high l k))
    | inr (inr e) ↦ rw e (
        ap (λ v. some (with_disk h (record h.disk { used_ring = v })))
          (address_set h.disk.used_ring low high l k))
  ]
