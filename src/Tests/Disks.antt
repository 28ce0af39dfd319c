-- ===== src/Tests/Disks.antt =====
-- The virtio disk at concrete inputs.
use risc_v_emulator.Prelude.{◌^◌, ◌%◌, ℕ, ◌+◌, ◌≡◌, arith, false, [], some, mul64}
use risc_v_emulator.Tests.Board.{machine, hart, undef, ram_bus}
use risc_v_emulator.Plic.{Plic}
use risc_v_emulator.Virtio.{Disk, Host, bsize, process_queue}
use risc_v_emulator.Virtio.Queue.{guest_index, Drained, process_queue-Drained}
use risc_v_emulator.Virtio.Transfer.{transfer}
use risc_v_emulator.Virtio.Cache.{IsCoherent, put_bytes, transfer-IsCoherent}

abbrev pub quiet : Plic
quiet = record {
  priority = λ irq. 1;
  enable = λ cpu_id word. 0;
  threshold = λ cpu_id. 0;
  irq_pending = λ cpu_id. false;
  pending = λ word. 0;
  claimed = λ cpu_id word. 0;
  current_irq = λ cpu_id. 0;
}

-- A ready disk with eight places in its queue and an empty cache.
abbrev pub disk : Disk
disk = record {
  disk_size_sectors = 4;
  disk_data = λ a. a;
  queue_num = 8;
  desc_addr = 0x80001000;
  avail_ring = 0x80002000;
  used_ring = 0x80003000;
  last_used_idx = 0;
  queue_ready = 1;
  status = 0;
  interrupt_status = 0;
  pending_ops = [];
  bc = record { blockno = 0; bytes = λ i. 0; valid = false };
  prev_avail = 65535;
}

abbrev host : Host ℕ
host = record { disk = disk; machine = machine; plic = quiet; others = λ i. hart }

process_queue-Drained_example :
    (h' : Host ℕ) × (process_queue undef ram_bus host ≡ some h')
    × Drained undef ram_bus
        ((guest_index undef ram_bus host).0 % 2 ^ 16)
        (record host { machine = (guest_index undef ram_bus host).1 })
        h'
process_queue-Drained_example =
    process_queue-Drained undef ram_bus host (λ e. omega arith) (λ e. omega arith) (omega arith)

empty_cache : IsCoherent disk
unfolding IsCoherent
empty_cache i l v = absurd (ground (arith, v))

transfer-IsCoherent_example :
    IsCoherent (transfer undef ram_bus 1 1 0x80004000 host).disk
    × ((transfer undef ram_bus 0 1 0x80004000 host).machine
        ≡ put_bytes undef ram_bus (λ i. mul64 1 bsize + i) 0x80004000 bsize 0 machine)
transfer-IsCoherent_example = transfer-IsCoherent undef ram_bus 1 1 0x80004000 host empty_cache
