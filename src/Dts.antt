-- ===== src/Dts.antt =====
-- src/dts.c and src/dts.h: the writer of a device tree. A state of the writer is the array and the
-- position in it.
pub mod Source
pub mod Encoding
pub mod Layout
pub mod Tree
use Prim.Native.Char.{code}
use Prim.Native.String.{String}
use risc_v_emulator.Prelude.{
  ℕ, zero, suc, ◌+◌, ◌-◌, ◌*◌, ◌/◌, ◌%◌, ◌^◌, Bool, true, false, ◌==◌, leb, if◌then◌else◌, List, [],
  ◌∷◌, update, add64, u32,
}
use risc_v_emulator.Machine.{memory_base, memory_size}
use risc_v_emulator.Memory.{write_loop}

-- The bytes of a text.
abbrev pub codes : String → List ℕ
codes String.[] = []
codes (String.◌∷◌ c s) = code c ∷ codes s

abbrev pub length : List ℕ → ℕ
length [] = 0
length (b ∷ bs) = suc (length bs)

-- `cpu_to_fdt32` and `cpu_to_fdt64`: the code that turns the bytes round is a comment.
abbrev pub cpu_to_fdt32 : ℕ → ℕ
cpu_to_fdt32 x = x

abbrev pub cpu_to_fdt64 : ℕ → ℕ
cpu_to_fdt64 x = x

abbrev pub fdt_magic : ℕ
fdt_magic = 0xd00dfeed

abbrev pub fdt_begin_node : ℕ
fdt_begin_node = 1

abbrev pub fdt_end_node : ℕ
fdt_end_node = 2

abbrev pub fdt_prop : ℕ
fdt_prop = 3

abbrev pub fdt_end : ℕ
fdt_end = 9

-- `memcpy(&memory[base + *pos], &value, n); *pos += n`.
unfoldable pub append_word : ℕ → ℕ → ℕ → (ℕ → ℕ) × ℕ → (ℕ → ℕ) × ℕ
append_word base n value (mem, pos) = (write_loop (add64 base pos) value n 0 mem, u32 (pos + n))

abbrev pub write_token : ℕ → ℕ → (ℕ → ℕ) × ℕ → (ℕ → ℕ) × ℕ
write_token base token = append_word base 4 (cpu_to_fdt32 token)

unfoldable pub strcpy : ℕ → List ℕ → (ℕ → ℕ) → ℕ → ℕ
strcpy dst [] mem = update mem dst 0
strcpy dst (c ∷ s) mem = strcpy (dst + 1) s (update mem dst c)

-- `while (*pos % 4 != 0) { memory[base + *pos] = 0; (*pos)++; }`, which ends within three rounds.
unfoldable pub pad : ℕ → ℕ → (ℕ → ℕ) × ℕ → (ℕ → ℕ) × ℕ
pad base zero st = st
pad base (suc left) (mem, pos) =
    let rest = pad base left (update mem (add64 base pos) 0, u32 (pos + 1)) in
    if pos % 4 == 0 then (mem, pos) else rest

unfoldable pub write_string : ℕ → List ℕ → (ℕ → ℕ) × ℕ → (ℕ → ℕ) × ℕ
write_string base str (mem, pos) =
    pad base 3 (strcpy (add64 base pos) str mem, u32 (pos + (length str + 1)))

-- What each property begins with: the token, the length, and 0 for the offset of the name.
unfoldable pub write_header : ℕ → ℕ → (ℕ → ℕ) × ℕ → (ℕ → ℕ) × ℕ
write_header base len st =
    append_word base 4 (cpu_to_fdt32 0)
      (append_word base 4 (cpu_to_fdt32 len) (write_token base fdt_prop st))

-- The values of the properties. The name goes nowhere.
unfoldable pub write_property_string : ℕ → String → List ℕ → (ℕ → ℕ) × ℕ → (ℕ → ℕ) × ℕ
write_property_string base name value st =
    write_string base value (write_header base (length value + 1) st)

unfoldable pub write_property_u32 : ℕ → String → ℕ → (ℕ → ℕ) × ℕ → (ℕ → ℕ) × ℕ
write_property_u32 base name value st =
    append_word base 4 (cpu_to_fdt32 value) (write_header base 4 st)

unfoldable pub write_property_u64 : ℕ → String → ℕ → (ℕ → ℕ) × ℕ → (ℕ → ℕ) × ℕ
write_property_u64 base name value st =
    append_word base 8 (cpu_to_fdt64 value) (write_header base 8 st)

unfoldable pub append_registers : ℕ → List ℕ → (ℕ → ℕ) × ℕ → (ℕ → ℕ) × ℕ
append_registers base [] st = st
append_registers base (r ∷ rs) st =
    append_registers base rs (append_word base 8 (cpu_to_fdt64 r) st)

-- `count * 2` is the length of the list.
unfoldable pub write_property_reg : ℕ → String → List ℕ → (ℕ → ℕ) × ℕ → (ℕ → ℕ) × ℕ
write_property_reg base name reg st =
    append_registers base reg (write_header base (u32 (length reg * 8)) st)

unfoldable pub write_property_null : ℕ → String → (ℕ → ℕ) × ℕ → (ℕ → ℕ) × ℕ
write_property_null base name st = write_header base 0 st

-- A call of one of the writers, with its arguments.
pub data Call : Type 0 where
  token : ℕ → Call
  string : String → Call
  property_string : String → String → Call
  property_u32 : String → ℕ → Call
  property_u64 : String → ℕ → Call
  property_reg : String → List ℕ → Call
  property_null : String → Call

unfoldable pub perform : ℕ → Call → (ℕ → ℕ) × ℕ → (ℕ → ℕ) × ℕ
perform base (token t) st = write_token base t st
perform base (string s) st = write_string base (codes s) st
perform base (property_string name value) st = write_property_string base name (codes value) st
perform base (property_u32 name value) st = write_property_u32 base name value st
perform base (property_u64 name value) st = write_property_u64 base name value st
perform base (property_reg name reg) st = write_property_reg base name reg st
perform base (property_null name) st = write_property_null base name st

unfoldable pub perform_all : ℕ → List Call → (ℕ → ℕ) × ℕ → (ℕ → ℕ) × ℕ
perform_all base [] st = st
perform_all base (c ∷ cs) st = perform_all base cs (perform base c st)
