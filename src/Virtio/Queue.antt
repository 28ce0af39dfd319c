-- ===== src/Virtio/Queue.antt =====
-- src/virtio_blk.c, `process_queue`: the loop over the available ring comes to its end.
use risc_v_emulator.Prelude.{
  ℕ, zero, suc, ◌+◌, ◌-◌, ◌*◌, add64, subst, ◌%◌, ◌^◌, ◌≤◌, ◌<◌, ◌≡◌, ◌≢◌, refl, arith, ap, sym,
  ◌∙◌, false, ◌==◌, ==_iff, Bool-cases, inl, inr, some, List, [], ◌∷◌, ◌++◌, u16,
}
use risc_v_emulator.Machine.{Machine, Region, Undefined}
use risc_v_emulator.Bus.{bus_read}
use risc_v_emulator.Memory.{memory_read}
use risc_v_emulator.Virtio.{
  DiskOperation, Host, get_avail_idx, start_async_disk_operation, start_next, take_next, queue_loop,
  process_queue,
}

-- The requests between two indices of the ring, around the end of 16 bits.
abbrev pub distance : ℕ → ℕ → ℕ
distance prev last = (last + 2 ^ 16 - prev) % 2 ^ 16

unfoldable pub size : List DiskOperation → ℕ
size [] = 0
size (x ∷ xs) = suc (size xs)

size-append :
    (xs : List DiskOperation) (op : DiskOperation) → size (xs ++ (op ∷ [])) ≡ suc (size xs)
unfolding size
size-append [] op = refl
size-append (x ∷ xs) op = ap suc (size-append xs op)

append_shift :
    (xs : List DiskOperation) (op : DiskOperation) (ys : List DiskOperation)
    → (xs ++ (op ∷ [])) ++ ys ≡ xs ++ (op ∷ ys)
append_shift [] op ys = refl
append_shift (x ∷ xs) op ys = ap (λ l. x ∷ l) (append_shift xs op ys)

module _ {D : Type 0} (undef : Undefined) (bus : List (Region D)) where
  -- The guest's index, in the ring after its two bytes of flags.
  abbrev pub guest_index : Host D → ℕ × Machine D
  guest_index h = memory_read ((h.disk.avail_ring + 2) % 2 ^ 64) 2 h.machine

  -- The entry of the available ring for the device's index: two bytes, after the four of its flags
  -- and index.
  abbrev pub slot_of : Host D → ℕ
  slot_of h = (h.disk.avail_ring + 4 + 2 * (h.disk.prev_avail % h.disk.queue_num)) % 2 ^ 64

  -- What the read of an entry gives, then the first 8 bytes of the descriptor with that number, an
  -- address, then the 4 bytes there and the 8 bytes 8 on.
  abbrev pub entry_at : ℕ → Host D → ℕ × Machine D
  entry_at slot h = bus_read undef bus slot 2 h.machine

  abbrev pub descriptor_at : ℕ → Host D → ℕ × Machine D
  descriptor_at slot h =
      let e = entry_at slot h in
      memory_read ((h.disk.desc_addr + e.0 % 2 ^ 16 * 16) % 2 ^ 64) 8 (e.1)

  abbrev pub kind_at : ℕ → Host D → ℕ × Machine D
  kind_at slot h = let d = descriptor_at slot h in memory_read (d.0) 4 (d.1)

  abbrev pub sector_at : ℕ → Host D → ℕ × Machine D
  sector_at slot h = memory_read (((descriptor_at slot h).0 + 8) % 2 ^ 64) 8 ((kind_at slot h).1)

  -- From one host to another the request of an entry is taken up: its operation comes first in the
  -- list, the index moves on by one, and the queue stays where it is.
  pub record IsTakenAt (slot : ℕ) (h h' : Host D) : Type 0 where
    pub op : DiskOperation
    pub head : op.head_desc_idx ≡ (entry_at slot h).0 % 2 ^ 16
    pub kind : op.kind ≡ (kind_at slot h).0 % 2 ^ 32
    pub sector : op.sector ≡ (sector_at slot h).0
    pub not_completed : op.completed ≡ false
    pub first : h'.disk.pending_ops ≡ op ∷ h.disk.pending_ops
    pub next : h'.disk.prev_avail ≡ (h.disk.prev_avail + 1) % 2 ^ 16
    pub queue_num : h'.disk.queue_num ≡ h.disk.queue_num
    pub avail_ring : h'.disk.avail_ring ≡ h.disk.avail_ring
    pub desc_addr : h'.disk.desc_addr ≡ h.disk.desc_addr
    pub machine : h'.machine ≡ (sector_at slot h).1

  abbrev pub IsTaken : Host D → Host D → Type 0
  IsTaken h h' = IsTakenAt (slot_of h) h h'

  -- So many requests are taken up, one after the other.
  pub data AreTaken : ℕ → Host D → Host D → Type 0 where
    arrived : (h : Host D) → AreTaken 0 h h
    taken : (n : ℕ) (h h' h'' : Host D) → IsTaken h h' → AreTaken n h' h'' → AreTaken (suc n) h h''

  -- Every request up to `last` has an operation, before those that were there.
  pub record Drained (last : ℕ) (h h' : Host D) : Type 0 where
    pub rounds : AreTaken (distance h.disk.prev_avail last) h h'
    pub index : h'.disk.prev_avail ≡ last
    pub added : List DiskOperation
    pub count : size added ≡ distance h.disk.prev_avail last
    pub list : h'.disk.pending_ops ≡ added ++ h.disk.pending_ops

  start_next-IsTaken : (h : Host D) → IsTaken h (start_next undef bus h)
  unfolding start_next start_async_disk_operation
  start_next-IsTaken h =
      let slot : add64 (add64 h.disk.avail_ring 4) (h.disk.prev_avail % h.disk.queue_num * 2)
          ≡ slot_of h =
        ground arith in
      subst (λ a. IsTakenAt a h (start_next undef bus h)) slot
        (record {
          op = _;
          head = refl;
          kind = refl;
          sector = refl;
          not_completed = refl;
          first = refl;
          next = refl;
          queue_num = refl;
          avail_ring = refl;
          desc_addr = refl;
          machine = refl;
        })

  -- A round adds one operation and moves the index on.
  record Stepped (h h' : Host D) : Type 0 where
    moved : h'.disk.prev_avail ≡ u16 (h.disk.prev_avail + 1)
    same : h'.disk.queue_num ≡ h.disk.queue_num
    op : DiskOperation
    more : h'.disk.pending_ops ≡ op ∷ h.disk.pending_ops

  start_next-Stepped : (h : Host D) → Stepped h (start_next undef bus h)
  unfolding start_next start_async_disk_operation
  start_next-Stepped h = record { moved = refl; same = refl; op = _; more = refl }

  -- A round and the rounds after it.
  Stepped-Drained :
      (last : ℕ) (h h' h'' : Host D)
      → h.disk.prev_avail < 2 ^ 16
      → last < 2 ^ 16
      → h.disk.prev_avail ≢ last
      → Stepped h h'
      → IsTaken h h'
      → Drained last h' h''
      → Drained last h h''
  Stepped-Drained last h h' h'' p l n s t r =
      let nearer : distance h.disk.prev_avail last
          ≡ suc (distance (u16 (h.disk.prev_avail + 1)) last) =
        omega arith in
      record {
        rounds =
            subst (λ k. AreTaken k h h'') (sym nearer)
              (taken _ h h' h'' t
                (subst (λ k. AreTaken (distance k last) h' h'') s.moved r.rounds));
        index = r.index;
        added = r.added ++ (s.op ∷ []);
        count =
            size-append r.added s.op
            ∙ ap suc (r.count ∙ ap (λ k. distance k last) s.moved)
            ∙ sym nearer;
        list =
            r.list
            ∙ ap (λ ops. r.added ++ ops) s.more
            ∙ sym (append_shift r.added s.op h.disk.pending_ops);
      }

  at_end : (last : ℕ) (h : Host D) → last < 2 ^ 16 → h.disk.prev_avail ≡ last → Drained last h h
  unfolding size
  at_end last h l e =
      let none_left : 0 ≡ distance h.disk.prev_avail last = omega arith in
      record {
        rounds = subst (λ k. AreTaken k h h) none_left (arrived h);
        index = e;
        added = [];
        count = none_left;
        list = refl;
      }

  queue_loop-Drained :
      (fuel last : ℕ) (h : Host D)
      → h.disk.queue_num ≢ 0
      → h.disk.prev_avail < 2 ^ 16
      → last < 2 ^ 16
      → distance h.disk.prev_avail last ≤ fuel
      → (h' : Host D) × (queue_loop undef bus fuel last h ≡ some h') × Drained last h h'
  unfolding queue_loop take_next
  queue_loop-Drained zero last h n p l d =
      let done : h.disk.prev_avail ≡ last = omega arith in
      (h, rw ((==_iff h.disk.prev_avail last).1 done) refl, at_end last h l done)
  queue_loop-Drained (suc fuel) last h n p l d = elim (Bool-cases (h.disk.prev_avail == last)) [
    | inl e ↦ (h, rw (queue_loop, e) refl, at_end last h l ((==_iff h.disk.prev_avail last).0 e))
    | inr e ↦
        let s = start_next-Stepped h in
        let h' = start_next undef bus h in
        let some_places : h.disk.queue_num == 0 ≡ false = ground arith in
        let apart : h.disk.prev_avail ≢ last = λ z. ground arith in
        let further =
          queue_loop-Drained fuel last h' (λ z. n (sym s.same ∙ z)) (omega (arith, s.moved)) l
            (omega (arith, s.moved, apart)) in
        (
          further.0,
          rw (queue_loop, e, some_places) (further.1),
          Stepped-Drained last h h' (further.0) p l apart s (start_next-IsTaken h) (further.2),
        )
  ]

  -- A notification that finds the queue ready and of a size that is not 0 always ends, whatever the
  -- guest wrote into the ring. It takes up the requests between the device's index and the guest's,
  -- around the end of 16 bits, one after the other: the head of each is the entry of the available
  -- ring at the index of its turn, and kind and sector are what the head's descriptor leads to, read
  -- one after the other from the host that the read of the guest's index leaves. It
  -- leaves the device's index at the guest's, and the operations stand before those there were.
  pub process_queue-Drained :
      (h : Host D)
      → h.disk.queue_ready ≢ 0
      → h.disk.queue_num ≢ 0
      → h.disk.prev_avail < 2 ^ 16
      → (h' : Host D) × (process_queue undef bus h ≡ some h')
        × Drained ((guest_index h).0 % 2 ^ 16) (record h { machine = (guest_index h).1 }) h'
  unfolding process_queue get_avail_idx
  process_queue-Drained h r n p =
      let ready : h.disk.queue_ready == 0 ≡ false = ground arith in
      let index = (get_avail_idx h).0 in
      let end =
        queue_loop-Drained (2 ^ 16) index ((get_avail_idx h).1) n p (omega arith) (omega arith) in
      let d = end.2 in
      (
        end.0,
        rw ready (end.1),
        record {
          rounds = d.rounds;
          index = d.index;
          added = d.added;
          count = d.count;
          list = d.list;
        },
      )
