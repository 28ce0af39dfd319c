-- ===== src/Main/Map.antt =====
-- src/main.c: which device an access to the bus reaches.
use risc_v_emulator.Prelude.{ℕ, ◌+◌, ◌-◌, ◌^◌, ◌<◌, ◌≡◌, arith, Bool, ◌&&◌, ltb, leb, if◌then◌else◌}
use risc_v_emulator.Machine.{Machine, Undefined, halt, memory_base, memory_size}
use risc_v_emulator.Memory.{ram_read, ram_write}
use risc_v_emulator.Bus.{bus_register_mmio, bus_read, bus_write}
use risc_v_emulator.Main.{
  Handlers, memory_map, uart_base, uart_size, plic_base, plic_size, virtio_mmio_base,
  virtio_mmio_size,
}
use risc_v_emulator.Clint.{clint_base, clint_size}

-- The address is among the `size` ones from `base` on.
abbrev pub lies_in : ℕ → ℕ → ℕ → Bool
lies_in base size addr = leb base addr && ltb addr (base + size)

module _ {D : Type 0} where
  -- The map from low to high addresses.
  unfoldable pub routed_read :
      Undefined
      → Handlers D
      → Handlers D
      → Handlers D
      → Handlers D
      → ℕ
      → ℕ
      → Machine D
      → ℕ × Machine D
  routed_read undef uart plic disk clint addr n m =
      if lies_in clint_base clint_size addr
      then clint.on_read (addr - clint_base) n m
      else if lies_in plic_base plic_size addr
      then plic.on_read (addr - plic_base) n m
      else if lies_in uart_base uart_size addr
      then uart.on_read (addr - uart_base) n m
      else if lies_in virtio_mmio_base virtio_mmio_size addr
      then disk.on_read (addr - virtio_mmio_base) n m
      else if lies_in memory_base memory_size addr
      then ram_read (addr - memory_base) n m
      else (undef.unmapped addr n, m)

  unfoldable pub routed_write :
      Handlers D → Handlers D → Handlers D → Handlers D → ℕ → ℕ → ℕ → Machine D → Machine D
  routed_write uart plic disk clint addr v n m =
      if lies_in clint_base clint_size addr
      then clint.on_write (addr - clint_base) v n m
      else if lies_in plic_base plic_size addr
      then plic.on_write (addr - plic_base) v n m
      else if lies_in uart_base uart_size addr
      then uart.on_write (addr - uart_base) v n m
      else if lies_in virtio_mmio_base virtio_mmio_size addr
      then disk.on_write (addr - virtio_mmio_base) v n m
      else if lies_in memory_base memory_size addr
      then ram_write (addr - memory_base) v n m
      else halt m

  -- The windows of the five devices are apart: an access of at least a byte that ends within 64
  -- bits reaches the device in whose window its address lies, at the offset in the window. Outside
  -- of all windows a read has no defined value and a write halts the hart.
  pub memory_map-routed_read :
      (undef : Undefined) (uart plic disk clint : Handlers D) (addr v n : ℕ) (m : Machine D)
      → 0 < n
      → addr + n < 2 ^ 64
      → (bus_read undef (memory_map uart plic disk clint) addr n m
          ≡ routed_read undef uart plic disk clint addr n m)
        × (bus_write (memory_map uart plic disk clint) addr v n m
            ≡ routed_write uart plic disk clint addr v n m)
  unfolding memory_map bus_register_mmio bus_read bus_write routed_read routed_write
  memory_map-routed_read undef uart plic disk clint addr v n m h l = (ground arith, ground arith)
