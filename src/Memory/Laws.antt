-- ===== src/Memory/Laws.antt =====
-- src/memory.c: what is written to the RAM device is read back.
use risc_v_emulator.Prelude.{ℕ, ◌+◌, ◌-◌, ◌*◌, ◌%◌, ◌^◌, ◌≤◌, ◌<◌, ◌≡◌, ◌⊎◌, arith, ◌∙◌}
use risc_v_emulator.Prelude.{ap}
use risc_v_emulator.Machine.{Machine, memory_size}
use risc_v_emulator.Memory.{read_loop, write_loop, ram_read, ram_write}
use risc_v_emulator.Memory.Bytes.{
  number_at, read_loop-number_at, write_loop-at, number_at_bytes, number_at_ext,
}

write_loop-lt : (mem : ℕ → ℕ) (off v n j : ℕ) → mem j < 256 → write_loop off v n 0 mem j < 256
write_loop-lt mem off v n j h = ground (arith, write_loop-at off v n 0 mem j)

module _ {D : Type 0} where
  -- `memory` is an array of bytes.
  abbrev pub IsBytes : Machine D → Type 0
  IsBytes m = (j : ℕ) → m.mem j < 256

  pub read_loop_value :
      (m : Machine D) (off n : ℕ)
      → IsBytes m
      → n ≤ 8
      → read_loop m.mem off n 0 0 ≡ number_at m.mem off n
  read_loop_value m off n bytes small =
      read_loop-number_at m.mem off n 0 0 bytes (omega arith) (omega arith)
      ∙ ground (arith, ap (λ (t : ℕ). number_at m.mem t n) (plus_zero off))
    where
      plus_zero : (a : ℕ) → a + 0 ≡ a
      plus_zero a = omega arith

  pub ram_read_value :
      (m : Machine D) (off n : ℕ)
      → IsBytes m
      → off + n ≤ memory_size
      → off < memory_size
      → n ≤ 8
      → ram_read off n m ≡ (number_at m.mem off n, m)
  unfolding ram_read
  ram_read_value m off n bytes fits inside small =
      ground (arith, read_loop_value m off n bytes small)

  ram_write_mem :
      (m : Machine D) (off v n : ℕ)
      → off + n ≤ memory_size
      → n ≤ 8
      → ram_write off v n m ≡ record m { mem = write_loop off v n 0 m.mem }
  unfolding ram_write
  ram_write_mem m off v n fits small = ground arith

  -- A write keeps every cell a byte.
  pub ram_write-IsBytes : (m : Machine D) (off v n : ℕ) → IsBytes m → IsBytes (ram_write off v n m)
  unfolding ram_write
  ram_write-IsBytes m off v n bytes =
      λ j. ground (arith, write_loop-lt m.mem off v n j (bytes j), bytes j)

  -- What is written is read back, cut to the size of the access.
  pub ram_read-ram_write :
      (m : Machine D) (off v n : ℕ)
      → IsBytes m
      → off + n ≤ memory_size
      → off < memory_size
      → n ≤ 8
      → (ram_read off n (ram_write off v n m)).0 ≡ v % 2 ^ (8 * n)
  ram_read-ram_write m off v n bytes fits inside small =
      rw
        (ram_read_value (ram_write off v n m) off n (ram_write-IsBytes m off v n bytes) fits inside
          small)
        (rw (ram_write_mem m off v n fits small) (
          number_at_bytes _ off v n
            (λ k p. ground (arith, write_loop-at off v n 0 m.mem (off + k), back off k))))
    where
      back : (a k : ℕ) → a + k - a ≡ k
      back a k = omega arith

  -- A read that does not overlap the written bytes is not changed.
  pub ram_read-ram_write_apart :
      (m : Machine D) (off v n off' n' : ℕ)
      → IsBytes m
      → off + n ≤ memory_size
      → n ≤ 8
      → off' + n' ≤ memory_size
      → off' < memory_size
      → n' ≤ 8
      → (off' + n' ≤ off) ⊎ (off + n ≤ off')
      → (ram_read off' n' (ram_write off v n m)).0 ≡ (ram_read off' n' m).0
  ram_read-ram_write_apart m off v n off' n' bytes fits small fits' inside' small' apart =
      rw
        (
          ram_read_value (ram_write off v n m) off' n' (ram_write-IsBytes m off v n bytes) fits'
              inside' small',
          ram_read_value m off' n' bytes fits' inside' small',
          ram_write_mem m off v n fits small,
        )
        (number_at_ext _ _ off' n'
          (λ k p. ground (arith, write_loop-at off v n 0 m.mem (off' + k))))
