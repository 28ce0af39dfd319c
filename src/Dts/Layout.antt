-- ===== src/Dts/Layout.antt =====
-- src/dts.c: any sequence of calls of the writers appends the bytes of the calls, in order.
use mathlib.Core.List.{append_assoc}
use risc_v_emulator.Prelude.{
  ℕ, zero, suc, ◌+◌, ◌-◌, ◌*◌, ◌%◌, ◌^◌, ◌≤◌, ◌<◌, ◌≡◌, refl, arith, ap, sym, ◌∙◌, true, false,
  ◌==◌, List, [], ◌∷◌, ◌++◌, update, add64, u32,
}
use risc_v_emulator.Dts.{
  codes, length, Call, token, string, property_string, property_u32, property_u64, property_reg,
  property_null, fdt_prop, append_word, strcpy, pad, write_string, write_header,
  write_property_string, write_property_u32, write_property_u64, append_registers,
  write_property_reg, write_property_null, perform, perform_all,
}
use risc_v_emulator.Dts.Encoding.{
  word, zeros, text, prop_header, registers_of, encode, encode_all, emit, length-append,
  emit-append, Appends, Appends-append, append_word-Appends,
}

strcpy-emit : (dst : ℕ) (s : List ℕ) (mem : ℕ → ℕ) → strcpy dst s mem ≡ emit dst (s ++ (0 ∷ [])) mem
unfolding strcpy emit
strcpy-emit dst [] mem = refl
strcpy-emit dst (c ∷ s) mem = strcpy-emit (dst + 1) s (update mem dst c)

length-zeros : (n : ℕ) → length (zeros n) ≡ n
length-zeros zero = refl
length-zeros (suc n) = ap suc (length-zeros n)

pad-emit :
    (base left k pos : ℕ) (mem : ℕ → ℕ)
    → k ≤ left
    → k < 4
    → (pos + k) % 4 ≡ 0
    → base + pos + k < 2 ^ 64
    → pos + k < 2 ^ 32
    → pad base left (mem, pos) ≡ (emit (base + pos) (zeros k) mem, pos + k)
unfolding pad emit
pad-emit base zero zero pos mem l h al w v =
    let same : pos ≡ pos + 0 = omega arith in ap (λ (e : ℕ). (mem, e)) same
pad-emit base zero (suc k) pos mem l h al w v = absurd (omega arith)
pad-emit base (suc left) zero pos mem l h al w v =
    let done : pos % 4 == 0 ≡ true = ground arith in
    let same : pos ≡ pos + 0 = omega arith in rw done (ap (λ (e : ℕ). (mem, e)) same)
pad-emit base (suc left) (suc k) pos mem l h al w v =
    let more : pos % 4 == 0 ≡ false = ground arith in
    let place : add64 base pos ≡ base + pos = ground arith in
    let next : u32 (pos + 1) ≡ pos + 1 = ground arith in
    let end : pos + 1 + k ≡ pos + suc k = omega arith in
    let on : base + (pos + 1) ≡ base + pos + 1 = omega arith in
    let m = update mem (base + pos) 0 in
    rw (more, place, next)
      (pad-emit base left k (pos + 1) m (omega arith) (omega arith) (omega arith) (omega arith)
          (omega arith)
        ∙ ap (λ (a : ℕ). (emit a (zeros k) m, pos + 1 + k)) on
        ∙ ap (λ (e : ℕ). (emit (base + pos + 1) (zeros k) m, e)) end)

length-text : (s : List ℕ) → length (text s) ≡ length s + (4 - length s % 4)
length-text s = length-append s (zeros (4 - length s % 4)) ∙ ap (λ n. length s + n) (length-zeros _)

text_parts :
    (b a : ℕ) (s : List ℕ) (mem : ℕ → ℕ)
    → b ≡ a + (length s + 1)
    → emit b (zeros (3 - length s % 4)) (emit a (s ++ (0 ∷ [])) mem) ≡ emit a (text s) mem
text_parts b a s mem e =
    let zs = zeros (3 - length s % 4) in
    let fill : 4 - length s % 4 ≡ suc (3 - length s % 4) = omega arith in
    let parts : text s ≡ (s ++ (0 ∷ [])) ++ zs =
      ap (λ n. s ++ zeros n) fill ∙ sym (append_assoc s (0 ∷ []) zs) in
    let count = length-append s (0 ∷ []) in
    let place : b ≡ a + length (s ++ (0 ∷ [])) = omega (arith, e, count) in
    ap (λ (x : ℕ). emit x zs (emit a (s ++ (0 ∷ [])) mem)) place
    ∙ sym (emit-append a (s ++ (0 ∷ [])) zs mem)
    ∙ ap (λ (bs : List ℕ). emit a bs mem) (sym parts)

write_string-Appends : (base : ℕ) (s : List ℕ) → Appends base (write_string base s) (text s)
unfolding write_string
write_string-Appends base s =
    let count = length-text s in
    let n = length s in
    let k = 3 - n % 4 in
    let fill : 4 - n % 4 ≡ suc k = omega arith in
    record {
      whole = omega (arith, count);
      effect = λ mem pos al hi lo.
          let place : add64 base pos ≡ base + pos = ground (arith, count) in
          let mid : u32 (pos + (n + 1)) ≡ pos + (n + 1) = ground (arith, count) in
          let copied = emit (base + pos) (s ++ (0 ∷ [])) mem in
          let end : pos + (n + 1) + k ≡ pos + length (text s) = omega (arith, count) in
          ap (λ (a : ℕ). pad base 3 (strcpy a s mem, u32 (pos + (n + 1)))) place
          ∙ ap (λ (e : ℕ). pad base 3 (strcpy (base + pos) s mem, e)) mid
          ∙ ap (λ (m : ℕ → ℕ). pad base 3 (m, pos + (n + 1))) (strcpy-emit (base + pos) s mem)
          ∙ pad-emit base 3 k (pos + (n + 1)) copied (omega arith) (omega arith) (omega arith)
              (omega (arith, count)) (omega (arith, count))
          ∙ ap (λ (m : ℕ → ℕ). (m, pos + (n + 1) + k))
              (text_parts _ (base + pos) s mem (omega arith))
          ∙ ap (λ (e : ℕ). (emit (base + pos) (text s) mem, e)) end;
    }

-- The writers of properties.
prop_header-Appends : (base len : ℕ) → Appends base (write_header base len) (prop_header len)
unfolding write_header
prop_header-Appends base len =
    Appends-append base _ (append_word base 4 0) _ (word 4 0)
      (Appends-append base (append_word base 4 fdt_prop) (append_word base 4 len) (word 4 fdt_prop)
        (word 4 len) (append_word-Appends base 4 fdt_prop refl)
        (append_word-Appends base 4 len refl))
      (append_word-Appends base 4 0 refl)

registers-Appends :
    (base : ℕ) (rs : List ℕ) → Appends base (append_registers base rs) (registers_of rs)
unfolding append_registers emit
registers-Appends base [] = record {
  whole = refl;
  effect =
      λ mem pos al hi lo. let same : pos ≡ pos + 0 = omega arith in ap (λ (e : ℕ). (mem, e)) same;
}
registers-Appends base (r ∷ rs) =
    Appends-append base (append_word base 8 r) (append_registers base rs) (word 8 r)
      (registers_of rs) (append_word-Appends base 8 r refl) (registers-Appends base rs)

pub perform-Appends : (base : ℕ) (c : Call) → Appends base (perform base c) (encode c)
unfolding perform write_property_string write_property_u32 write_property_u64 write_property_reg
    write_property_null
perform-Appends base (token t) = append_word-Appends base 4 t refl
perform-Appends base (string s) = write_string-Appends base (codes s)
perform-Appends base (property_string name value) =
    Appends-append base _ (write_string base (codes value)) _ _
      (prop_header-Appends base (length (codes value) + 1))
      (write_string-Appends base (codes value))
perform-Appends base (property_u32 name value) =
    Appends-append base _ (append_word base 4 value) _ _ (prop_header-Appends base 4)
      (append_word-Appends base 4 value refl)
perform-Appends base (property_u64 name value) =
    Appends-append base _ (append_word base 8 value) _ _ (prop_header-Appends base 8)
      (append_word-Appends base 8 value refl)
perform-Appends base (property_reg name reg) =
    Appends-append base _ (append_registers base reg) _ _
      (prop_header-Appends base (u32 (length reg * 8))) (registers-Appends base reg)
perform-Appends base (property_null name) = prop_header-Appends base 0

perform_all-Appends :
    (base : ℕ) (cs : List Call) → Appends base (perform_all base cs) (encode_all cs)
unfolding perform_all emit
perform_all-Appends base [] = record {
  whole = refl;
  effect =
      λ mem pos al hi lo. let same : pos ≡ pos + 0 = omega arith in ap (λ (e : ℕ). (mem, e)) same;
}
perform_all-Appends base (c ∷ cs) =
    Appends-append base (perform base c) (perform_all base cs) (encode c) (encode_all cs)
      (perform-Appends base c) (perform_all-Appends base cs)

-- Any sequence of calls of the writers, from a position that is a multiple of 4, appends the
-- encodings of the calls in order, and the position is past them. The offset stays within 64 bits and
-- the position within 32.
pub perform_all-encode_all :
    (base : ℕ) (cs : List Call) (mem : ℕ → ℕ) (pos : ℕ)
    → pos % 4 ≡ 0
    → base + pos + length (encode_all cs) < 2 ^ 64
    → pos + length (encode_all cs) < 2 ^ 32
    → perform_all base cs (mem, pos)
      ≡ (emit (base + pos) (encode_all cs) mem, pos + length (encode_all cs))
perform_all-encode_all base cs = (perform_all-Appends base cs).effect
