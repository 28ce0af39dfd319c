-- ===== src/Dts/Source.antt =====
-- src/dts.c, `create_complete_device_tree`: the calls of the writers in order, and the function.
use risc_v_emulator.Prelude.{ℕ, ◌+◌, leb, if◌then◌else◌, List, [], ◌∷◌, ◌++◌, add64}
use risc_v_emulator.Machine.{memory_base, memory_size}
use risc_v_emulator.Dts.{
  Call, token, string, property_string, property_u32, property_reg, property_null, fdt_magic,
  fdt_begin_node, fdt_end_node, fdt_end, cpu_to_fdt32, append_word, perform_all,
}

-- The root node and its properties.
abbrev pub the_root : List Call
the_root =
    token fdt_begin_node
    ∷ string ""
    ∷ property_string "compatible" "ucbbar,spike-bare-dev"
    ∷ property_string "model" "ucbbar,spike-bare"
    ∷ []

-- The harts and their interrupt controller.
abbrev pub the_cpus : List Call
the_cpus =
    token fdt_begin_node
    ∷ string "cpus"
    ∷ property_u32 "phandle" 0x1
    ∷ property_u32 "riscv,isa" 0
    ∷ property_u32 "timebase-frequency" 10000000
    ∷ token fdt_begin_node
    ∷ string "cpu@0"
    ∷ property_string "device_type" "cpu"
    ∷ property_string "status" "okay"
    ∷ property_string "compatible" "riscv"
    ∷ property_string "riscv,isa" "rv64imafdc"
    ∷ property_string "mmu-type" "riscv,sv48"
    ∷ property_u32 "reg" 0
    ∷ property_u32 "clock-frequency" 1000000000
    ∷ token fdt_begin_node
    ∷ string "interrupt-controller"
    ∷ property_u32 "phandle" 0x2
    ∷ property_null "interrupt-controller"
    ∷ property_string "compatible" "riscv,cpu-intc"
    ∷ property_u32 "#interrupt-cells" 1
    ∷ token fdt_end_node
    ∷ token fdt_end_node
    ∷ token fdt_end_node
    ∷ []

-- `MEMORY_SIZE` is that of src/common.h, which is included after src/dts.h.
abbrev pub the_memory : List Call
the_memory =
    token fdt_begin_node
    ∷ string "memory@80000000"
    ∷ property_string "device_type" "memory"
    ∷ property_reg "reg" (memory_base ∷ memory_size ∷ [])
    ∷ token fdt_end_node
    ∷ []

-- The bus, and the timer.
abbrev pub the_bus : List Call
the_bus =
    token fdt_begin_node
    ∷ string "soc"
    ∷ property_string "compatible" "simple-bus"
    ∷ property_string "ranges" ""
    ∷ property_string "bus-type" "amba"
    ∷ token fdt_begin_node
    ∷ string "clint@2000000"
    ∷ property_string "compatible" "riscv,clint0"
    ∷ property_reg "reg" (0x02000000 ∷ 0x10000 ∷ [])
    ∷ property_u32 "interrupts-extended" 0x2000001
    ∷ token fdt_end_node
    ∷ []

-- The interrupt controller.
abbrev pub the_plic : List Call
the_plic =
    token fdt_begin_node
    ∷ string "plic@c000000"
    ∷ property_string "compatible" "riscv,plic0"
    ∷ property_string "interrupt-controller" ""
    ∷ property_reg "reg" (0x0c000000 ∷ 0x4000000 ∷ [])
    ∷ property_u32 "riscv,ndev" 53
    ∷ property_u32 "interrupts-extended" 0x2000009
    ∷ property_u32 "phandle" 0x3
    ∷ token fdt_end_node
    ∷ []

-- The serial port.
abbrev pub the_uart : List Call
the_uart =
    token fdt_begin_node
    ∷ string "uart@10000000"
    ∷ property_string "compatible" "ns16550a"
    ∷ property_reg "reg" (0x10000000 ∷ 0x100 ∷ [])
    ∷ property_u32 "clock-frequency" 1843200
    ∷ property_u32 "interrupt-parent" 0x3
    ∷ property_u32 "interrupts" 10
    ∷ property_string "reg-shift" "0"
    ∷ property_string "reg-io-width" "1"
    ∷ token fdt_end_node
    ∷ []

-- The clock.
abbrev pub the_rtc : List Call
the_rtc =
    token fdt_begin_node
    ∷ string "rtc@10100000"
    ∷ property_string "compatible" "google,goldfish-rtc"
    ∷ property_reg "reg" (0x10100000 ∷ 0x1000 ∷ [])
    ∷ property_u32 "interrupt-parent" 0x3
    ∷ property_u32 "interrupts" 11
    ∷ token fdt_end_node
    ∷ []

-- The end of the bus, the last property of the root, and the end.
abbrev pub the_end : List Call
the_end =
    token fdt_end_node
    ∷ property_string "stdout-path" "/soc/uart@10000000"
    ∷ token fdt_end_node
    ∷ token fdt_end
    ∷ []

abbrev pub device_tree : List Call
device_tree =
    the_root ++ the_cpus ++ the_memory ++ the_bus ++ the_plic ++ the_uart ++ the_rtc ++ the_end

-- The fields of `struct fdt_header` in order.
abbrev pub header_words : List ℕ
header_words =
    fdt_magic
    ∷ cpu_to_fdt32 (40 + 2048 + 512)
    ∷ cpu_to_fdt32 40
    ∷ cpu_to_fdt32 (40 + 2048)
    ∷ cpu_to_fdt32 0
    ∷ cpu_to_fdt32 17
    ∷ cpu_to_fdt32 16
    ∷ cpu_to_fdt32 0
    ∷ cpu_to_fdt32 512
    ∷ cpu_to_fdt32 2048
    ∷ []

-- `memcpy` of the header, field by field.
unfoldable pub append_words : ℕ → List ℕ → (ℕ → ℕ) × ℕ → (ℕ → ℕ) × ℕ
append_words base [] st = st
append_words base (w ∷ ws) st = append_words base ws (append_word base 4 w st)

-- The function after its checks: the header at 0 and the nodes from 40 on.
unfoldable pub write_tree : ℕ → (ℕ → ℕ) → (ℕ → ℕ) × ℕ
write_tree dtb_addr mem =
    perform_all dtb_addr device_tree (append_words dtb_addr header_words (mem, 0))

-- `MEMORY_BASE + dtb_addr >= MEMORY_SIZE` is the test that refuses an address.
unfoldable pub create_complete_device_tree : ℕ → (ℕ → ℕ) → ℕ → ℕ
create_complete_device_tree dtb_addr mem =
    if leb memory_size (add64 memory_base dtb_addr) then mem else (write_tree dtb_addr mem).0
