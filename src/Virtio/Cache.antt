-- ===== src/Virtio/Cache.antt =====
-- src/virtio_blk.c: the block cache and the disk image.
use risc_v_emulator.Prelude.{
  ℕ, zero, suc, ◌+◌, ◌<◌, ◌≡◌, refl, arith, ap, sym, ◌∙◌, true, ◌==◌, ◌&&◌, Bool-cases, inl, inr,
  lt→ltb, List, subst, mul64, add64,
}
use risc_v_emulator.Machine.{Machine, Region, Undefined}
use risc_v_emulator.Bus.{bus_write}
use risc_v_emulator.Virtio.{Disk, Host, bsize, load_block, with_disk}
use risc_v_emulator.Virtio.Transfer.{store_block, with_cache, copy_out, copy_in, transfer}

-- The cache holds the bytes of the block that it names.
unfoldable pub IsCoherent : Disk → Type 0
IsCoherent d =
    (i : ℕ)
    → i < bsize
    → d.bc.valid ≡ true
    → d.bc.bytes i ≡ d.disk_data (mul64 d.bc.blockno bsize + i)

-- After it the cache names the block.
record Loaded (blockno : ℕ) (d : Disk) : Type 0 where
  valid : d.bc.valid ≡ true
  block : d.bc.blockno ≡ blockno
  coherent : IsCoherent d

load_block-Loaded : (blockno : ℕ) (d : Disk) → IsCoherent d → Loaded blockno (load_block blockno d)
unfolding load_block IsCoherent
load_block-Loaded blockno d c = elim (Bool-cases (d.bc.valid && d.bc.blockno == blockno)) [
  | inl e ↦ rw e (record { valid = ground arith; block = ground arith; coherent = c })
  | inr e ↦
      rw e (record { valid = refl; block = refl; coherent = λ i l v. rw (lt→ltb i 1024 l) refl })
]

load_block_image : (blockno : ℕ) (d : Disk) → (load_block blockno d).disk_data ≡ d.disk_data
unfolding load_block
load_block_image blockno d = elim (Bool-cases (d.bc.valid && d.bc.blockno == blockno)) [
  | inl e ↦ rw e refl
  | inr e ↦ rw e refl
]

-- A block in the image is what the cache holds of it; the rest of the image stays.
store_block-IsCoherent : (d : Disk) → IsCoherent (store_block d.bc.blockno d)
unfolding store_block IsCoherent
store_block-IsCoherent d i l v = ground arith

cached_byte :
    (blockno : ℕ) (d : Disk)
    → Loaded blockno (load_block blockno d)
    → (j : ℕ) → j < bsize
    → (load_block blockno d).bc.bytes j ≡ d.disk_data (mul64 blockno bsize + j)
unfolding IsCoherent
cached_byte blockno d l j k =
    l.coherent j k l.valid
    ∙ ap (λ b. (load_block blockno d).disk_data (mul64 b bsize + j)) l.block
    ∙ ap (λ (f : ℕ → ℕ). f (mul64 blockno bsize + j)) (load_block_image blockno d)

module _ {D : Type 0} (undef : Undefined) (bus : List (Region D)) where
  copy_out-disk :
      (data_addr n i : ℕ) (h : Host D) → (copy_out undef bus data_addr n i h).disk ≡ h.disk
  unfolding copy_out
  copy_out-disk data_addr zero i h = refl
  copy_out-disk data_addr (suc n) i h = copy_out-disk data_addr n (i + 1) _

  copy_in-disk :
      (data_addr n i : ℕ) (h : Host D)
      → (copy_in undef bus data_addr n i h).disk
        ≡ with_cache h.disk (copy_in undef bus data_addr n i h).disk.bc.bytes
  unfolding copy_in
  copy_in-disk data_addr zero i h = refl
  copy_in-disk data_addr (suc n) i h = copy_in-disk data_addr n (i + 1) _

  -- The bytes of `f` from `i` on, to the bus.
  unfoldable pub put_bytes : (ℕ → ℕ) → ℕ → ℕ → ℕ → Machine D → Machine D
  put_bytes f data_addr zero i m = m
  put_bytes f data_addr (suc left) i m =
      put_bytes f data_addr left (i + 1) (bus_write bus (add64 data_addr i) (f i) 1 m)

  copy_out-put_bytes :
      (f : ℕ → ℕ) (data_addr n i : ℕ) (h : Host D)
      → ((j : ℕ) → j < i + n → h.disk.bc.bytes j ≡ f j)
      → (copy_out undef bus data_addr n i h).machine ≡ put_bytes f data_addr n i h.machine
  unfolding copy_out put_bytes
  copy_out-put_bytes f data_addr zero i h e = refl
  copy_out-put_bytes f data_addr (suc n) i h e =
      rw (sym (e i (omega arith)))
        (copy_out-put_bytes f data_addr n (i + 1) _ (λ j l. e j (omega arith)))

  filled-IsCoherent :
      (blockno data_addr : ℕ) (h : Host D)
      → Loaded blockno h.disk
      → let filled = copy_in undef bus data_addr bsize 0 h in
        IsCoherent (store_block blockno filled.disk)
  filled-IsCoherent blockno data_addr h l =
      let bytes = (copy_in undef bus data_addr bsize 0 h).disk.bc.bytes in
      let cached = with_cache h.disk bytes in
      let stored =
        subst (λ b. IsCoherent (store_block b cached)) l.block (store_block-IsCoherent cached) in
      subst (λ d. IsCoherent (store_block blockno d)) (sym (copy_in-disk data_addr bsize 0 h))
        stored

  transfer_kinds :
      (kind blockno data_addr : ℕ) (h : Host D)
      → IsCoherent h.disk
      → IsCoherent (transfer undef bus kind blockno data_addr h).disk
  unfolding transfer
  transfer_kinds kind blockno data_addr h c =
      let l = load_block-Loaded blockno h.disk c in
      let loaded = with_disk h (load_block blockno h.disk) in
      elim (Bool-cases (kind == 0)) [
        | inl e ↦ rw e (subst IsCoherent (sym (copy_out-disk data_addr bsize 0 loaded)) l.coherent)
        | inr e ↦ elim (Bool-cases (kind == 1)) [
          | inl w ↦ rw (e, w) (filled-IsCoherent blockno data_addr loaded l)
          | inr w ↦ rw (e, w) c
        ]
      ]

  -- With a coherent cache, a completed request leaves it coherent; and the bytes that a read of a
  -- block hands to the guest's buffer are those of the disk image, as if there were no cache.
  pub transfer-IsCoherent :
      (kind blockno data_addr : ℕ) (h : Host D)
      → IsCoherent h.disk
      → IsCoherent (transfer undef bus kind blockno data_addr h).disk
        × ((transfer undef bus 0 blockno data_addr h).machine
            ≡ put_bytes
                (λ i. h.disk.disk_data (mul64 blockno bsize + i))
                data_addr
                bsize
                0
                h.machine)
  unfolding transfer
  transfer-IsCoherent kind blockno data_addr h c =
      let l = load_block-Loaded blockno h.disk c in
      let loaded = with_disk h (load_block blockno h.disk) in
      (
        transfer_kinds kind blockno data_addr h c,
        copy_out-put_bytes _ data_addr bsize 0 loaded (λ j k. cached_byte blockno h.disk l j k),
      )
