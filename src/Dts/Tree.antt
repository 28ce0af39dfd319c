-- ===== src/Dts/Tree.antt =====
-- src/dts.c, `create_complete_device_tree`: the tree as a whole.
use risc_v_emulator.Prelude.{
  ℕ, ◌+◌, ◌-◌, ◌^◌, ◌≤◌, ◌<◌, ◌≡◌, ◌⊎◌, refl, arith, ap, sym, ◌∙◌, true, false, ◌==◌, leb, List, [],
  ◌∷◌, ◌++◌, update, add64,
}
use risc_v_emulator.Machine.{memory_base, memory_size}
use risc_v_emulator.Dts.{length, append_word, perform_all}
use risc_v_emulator.Dts.Encoding.{
  word, encode_all, emit, emit-append, Appends, Appends-append, append_word-Appends,
}
use risc_v_emulator.Dts.Layout.{perform_all-encode_all}
use risc_v_emulator.Dts.Source.{
  device_tree, header_words, append_words, write_tree, create_complete_device_tree,
}

abbrev pub words_of : List ℕ → List ℕ
words_of [] = []
words_of (w ∷ ws) = word 4 w ++ words_of ws

header-Appends : (base : ℕ) (ws : List ℕ) → Appends base (append_words base ws) (words_of ws)
unfolding append_words emit
header-Appends base [] = record {
  whole = refl;
  effect =
      λ mem pos al hi lo. let same : pos ≡ pos + 0 = omega arith in ap (λ (e : ℕ). (mem, e)) same;
}
header-Appends base (w ∷ ws) =
    Appends-append base (append_word base 4 w) (append_words base ws) (word 4 w) (words_of ws)
      (append_word-Appends base 4 w refl) (header-Appends base ws)

-- The bytes of the whole tree: 40 of the header, and those of the nodes.
abbrev pub blob : List ℕ
blob = words_of header_words ++ encode_all device_tree

nodes_fit : length (encode_all device_tree) ≤ 2048
nodes_fit = omega arith

emit_outside :
    (bs : List ℕ) (a j : ℕ) (mem : ℕ → ℕ) → (j < a) ⊎ (a + length bs ≤ j) → emit a bs mem j ≡ mem j
unfolding emit
emit_outside [] a j mem h = refl
emit_outside (b ∷ bs) a j mem h =
    let other : a == j ≡ false = ground arith in
    emit_outside bs (a + 1) j (update mem a b) (ground arith) ∙ rw other refl

-- The array after the function's writes is the one before with the header's ten words and then the
-- encodings of the 73 calls from `dtb_addr` on, at every address at least 2600 below 2 ^ 64; the
-- position is past the last of them.
pub write_tree_lem :
    (dtb_addr : ℕ) (mem : ℕ → ℕ)
    → dtb_addr + 2600 < 2 ^ 64
    → write_tree dtb_addr mem ≡ (emit dtb_addr blob mem, length blob)
unfolding write_tree
write_tree_lem dtb_addr mem h =
    let nodes = encode_all device_tree in
    let header = emit dtb_addr (words_of header_words) mem in
    let start : dtb_addr + 0 ≡ dtb_addr = omega arith in
    let fit : length nodes ≤ 2048 = nodes_fit in
    ap (perform_all dtb_addr device_tree) (
      (header-Appends dtb_addr header_words).effect mem 0 refl (omega arith) (omega arith)
      ∙ ap (λ (a : ℕ). (emit a (words_of header_words) mem, 40)) start)
    ∙ perform_all-encode_all dtb_addr device_tree header 40 refl (omega (arith, fit))
        (omega (arith, fit))
    ∙ ap (λ (m : ℕ → ℕ). (m, 40 + length nodes))
        (sym (emit-append dtb_addr (words_of header_words) nodes mem))

-- The tree keeps to the 2088 bytes that its header and the room for its nodes take.
pub write_tree_bounds :
    (dtb_addr j : ℕ) (mem : ℕ → ℕ)
    → dtb_addr + 2600 < 2 ^ 64
    → (j < dtb_addr) ⊎ (dtb_addr + 2088 ≤ j)
    → ((write_tree dtb_addr mem).0 j ≡ mem j) × ((write_tree dtb_addr mem).1 ≤ 2088)
write_tree_bounds dtb_addr j mem h out =
    let all = write_tree_lem dtb_addr mem h in
    let fit : length blob ≤ 2088 = omega arith in
    let beyond : (j < dtb_addr) ⊎ (dtb_addr + length blob ≤ j) = ground (arith, fit) in
    let end = ap (λ (st : (ℕ → ℕ) × ℕ). st.1) all in
    (
      ap (λ (st : (ℕ → ℕ) × ℕ). st.0 j) all ∙ emit_outside blob dtb_addr j mem beyond,
      omega (arith, end, fit),
    )

-- The function refuses every address below 2 ^ 64 - 2 ^ 31, and then changes nothing: it compares
-- the address in the guest with the size of the RAM, where the RAM begins above its size.
pub create_complete_device_tree_lem :
    (dtb_addr : ℕ) (mem : ℕ → ℕ)
    → dtb_addr < 2 ^ 64 - 2 ^ 31
    → create_complete_device_tree dtb_addr mem ≡ mem
unfolding create_complete_device_tree
create_complete_device_tree_lem dtb_addr mem h =
    let refused : leb memory_size (add64 memory_base dtb_addr) ≡ true = ground arith in
    rw refused refl
