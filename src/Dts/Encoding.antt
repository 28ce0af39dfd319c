-- ===== src/Dts/Encoding.antt =====
-- src/dts.c: the bytes of each property and token, apart from any array, and that the writers append
-- just them.
use risc_v_emulator.Prelude.{
  ℕ, zero, suc, ◌+◌, ◌-◌, ◌*◌, ◌/◌, ◌%◌, ◌^◌, ◌<◌, ◌≡◌, refl, arith, ap, sym, ◌∙◌, List, [], ◌∷◌,
  ◌++◌, update, add64, u32,
}
use risc_v_emulator.Memory.{write_loop}
use risc_v_emulator.Dts.{
  codes, length, Call, token, string, property_string, property_u32, property_u64, property_reg,
  property_null, fdt_prop, append_word,
}

-- The bytes of a number from the byte `i` on, the lowest first.
abbrev pub word_from : ℕ → ℕ → ℕ → List ℕ
word_from value i zero = []
word_from value i (suc left) = (value / 2 ^ (8 * i) % 256) ∷ word_from value (i + 1) left

abbrev pub word : ℕ → ℕ → List ℕ
word n value = word_from value 0 n

abbrev pub zeros : ℕ → List ℕ
zeros zero = []
zeros (suc n) = 0 ∷ zeros n

-- A text with its final 0, filled up to four bytes.
abbrev pub text : List ℕ → List ℕ
text s = s ++ zeros (4 - length s % 4)

abbrev pub prop_header : ℕ → List ℕ
prop_header len = (word 4 fdt_prop ++ word 4 len) ++ word 4 0

abbrev pub registers_of : List ℕ → List ℕ
registers_of [] = []
registers_of (r ∷ rs) = word 8 r ++ registers_of rs

abbrev pub encode : Call → List ℕ
encode (token t) = word 4 t
encode (string s) = text (codes s)
encode (property_string name value) = prop_header (length (codes value) + 1) ++ text (codes value)
encode (property_u32 name value) = prop_header 4 ++ word 4 value
encode (property_u64 name value) = prop_header 8 ++ word 8 value
encode (property_reg name reg) = prop_header (u32 (length reg * 8)) ++ registers_of reg
encode (property_null name) = prop_header 0

abbrev pub encode_all : List Call → List ℕ
encode_all [] = []
encode_all (c ∷ cs) = encode c ++ encode_all cs

-- The array with the bytes from an address on.
unfoldable pub emit : ℕ → List ℕ → (ℕ → ℕ) → ℕ → ℕ
emit a [] mem = mem
emit a (b ∷ bs) mem = emit (a + 1) bs (update mem a b)

pub length-append : (xs ys : List ℕ) → length (xs ++ ys) ≡ length xs + length ys
length-append [] ys = omega arith
length-append (x ∷ xs) ys = let ih = length-append xs ys in omega (arith, ih)

pub emit-append :
    (a : ℕ) (xs ys : List ℕ) (mem : ℕ → ℕ)
    → emit a (xs ++ ys) mem ≡ emit (a + length xs) ys (emit a xs mem)
unfolding emit
emit-append a [] ys mem = let same : a + 0 ≡ a = omega arith in rw same refl
emit-append a (x ∷ xs) ys mem =
    let next : a + suc (length xs) ≡ a + 1 + length xs = omega arith in
    rw next (emit-append (a + 1) xs ys (update mem a x))

-- A writer appends some bytes, whose count is a multiple of 4, at every position that is one.
pub record Appends (base : ℕ) (f : (ℕ → ℕ) × ℕ → (ℕ → ℕ) × ℕ) (bs : List ℕ) : Type 0 where
  pub whole : length bs % 4 ≡ 0
  pub effect :
      (mem : ℕ → ℕ) (pos : ℕ)
      → pos % 4 ≡ 0
      → base + pos + length bs < 2 ^ 64
      → pos + length bs < 2 ^ 32
      → f (mem, pos) ≡ (emit (base + pos) bs mem, pos + length bs)

-- One writer after another.
pub Appends-append :
    (base : ℕ) (f g : (ℕ → ℕ) × ℕ → (ℕ → ℕ) × ℕ) (xs ys : List ℕ)
    → Appends base f xs
    → Appends base g ys
    → Appends base (λ st. g (f st)) (xs ++ ys)
Appends-append base f g xs ys p q =
    let both = length-append xs ys in
    record {
      whole = omega (arith, both, p.whole, q.whole);
      effect = λ mem pos al hi lo.
          let after = emit (base + pos) xs mem in
          let place : base + (pos + length xs) ≡ base + pos + length xs = omega arith in
          let end : pos + length xs + length ys ≡ pos + length (xs ++ ys) = omega (arith, both) in
          ap g (p.effect mem pos al (omega (arith, both)) (omega (arith, both)))
          ∙ q.effect after (pos + length xs) (omega (arith, p.whole)) (omega (arith, both))
              (omega (arith, both))
          ∙ ap (λ (a : ℕ). (emit a ys after, pos + length xs + length ys)) place
          ∙ ap (λ (m : ℕ → ℕ). (m, pos + length xs + length ys))
              (sym (emit-append (base + pos) xs ys mem))
          ∙ ap (λ (e : ℕ). (emit (base + pos) (xs ++ ys) mem, e)) end;
    }

length-word_from : (value i n : ℕ) → length (word_from value i n) ≡ n
length-word_from value i zero = refl
length-word_from value i (suc n) = ap suc (length-word_from value (i + 1) n)

write_loop-emit :
    (off value left i : ℕ) (mem : ℕ → ℕ)
    → write_loop off value left i mem ≡ emit (off + i) (word_from value i left) mem
unfolding write_loop emit
write_loop-emit off value zero i mem = refl
write_loop-emit off value (suc left) i mem =
    let next : off + (i + 1) ≡ off + i + 1 = omega arith in
    write_loop-emit off value left (i + 1) _
    ∙ ap
        (λ (a : ℕ).
          emit a (word_from value (i + 1) left) (update mem (off + i) (value / 2 ^ (8 * i) % 256)))
        next

pub append_word-Appends :
    (base n value : ℕ) → n % 4 ≡ 0 → Appends base (append_word base n value) (word n value)
unfolding append_word
append_word-Appends base n value al =
    let count = length-word_from value 0 n in
    record {
      whole = omega (arith, count);
      effect = λ mem pos a hi lo.
          let place : add64 base pos + 0 ≡ base + pos = ground arith in
          let end : u32 (pos + n) ≡ pos + length (word n value) = ground (arith, count) in
          ap (λ (m : ℕ → ℕ). (m, u32 (pos + n))) (write_loop-emit (add64 base pos) value n 0 mem)
          ∙ ap (λ (x : ℕ). (emit x (word n value) mem, u32 (pos + n))) place
          ∙ ap (λ (e : ℕ). (emit (base + pos) (word n value) mem, e)) end;
    }
