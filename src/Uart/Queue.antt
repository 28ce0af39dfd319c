-- ===== src/Uart/Queue.antt =====
-- src/uart.c: the ring buffers, and the queue that one holds.
use risc_v_emulator.Prelude.{
  ℕ, zero, suc, ◌+◌, ◌-◌, ◌%◌, ◌^◌, ◌≤◌, ◌<◌, ◌≡◌, ◌≢◌, refl, arith, ap, sym, ◌∙◌, update,
  update_self, update_ne, List, [], ◌∷◌, ◌++◌, u32,
}

-- One of `tx_buf`, `rx_buf` with its head, tail and count.
pub record Ring : Type 0 where
  pub buf : ℕ → ℕ
  pub head : ℕ
  pub tail : ℕ
  pub count : ℕ

abbrev pub ring_size : ℕ
ring_size = 1024

unfoldable pub ring_put : ℕ → Ring → Ring
ring_put b r = record r {
  buf = update r.buf r.head b;
  head = u32 (r.head + 1) % ring_size;
  count = u32 (r.count + 1);
}

-- The tail advances and the count goes down, below zero too.
unfoldable pub ring_drop : Ring → Ring
ring_drop r = record r { tail = u32 (r.tail + 1) % ring_size; count = u32 (r.count + 2 ^ 32 - 1) }

-- The queue: `count` bytes from the tail on, around the end.
unfoldable pub from : (ℕ → ℕ) → ℕ → ℕ → List ℕ
from buf i zero = []
from buf i (suc n) = buf (i % 1024) ∷ from buf (i + 1) n

unfoldable pub contents : Ring → List ℕ
contents r = from r.buf r.tail r.count

-- Indices in range, and the head `count` places after the tail.
pub record IsRing (r : Ring) : Type 0 where
  pub tail_in : r.tail < ring_size
  pub count_in : r.count ≤ ring_size
  pub head_lem : r.head ≡ (r.tail + r.count) % ring_size

from_wrap : (buf : ℕ → ℕ) (n i : ℕ) → from buf (i % 1024) n ≡ from buf i n
unfolding from
from_wrap buf zero i = refl
from_wrap buf (suc n) i =
    let near = sym (from_wrap buf n (i % 1024 + 1)) in
    let same : (i % 1024 + 1) % 1024 ≡ (i + 1) % 1024 = omega arith in
    let rest = near ∙ ap (λ k. from buf k n) same ∙ from_wrap buf n (i + 1) in
    let here : i % 1024 % 1024 ≡ i % 1024 = omega arith in rw (here, rest) refl

from_unseen :
    (buf : ℕ → ℕ) (b place n i : ℕ)
    → ((k : ℕ) → k < n → place ≢ (i + k) % 1024)
    → from (update buf place b) i n ≡ from buf i n
unfolding from
from_unseen buf b place zero i h = refl
from_unseen buf b place (suc n) i h =
    let here = update_ne buf place (i % 1024) b (λ e. h 0 (omega arith) (omega arith)) in
    rw (here, from_unseen buf b place n (i + 1) (λ k l e. h (k + 1) (omega arith) (omega arith)))
      refl

from_snoc :
    (buf : ℕ → ℕ) (n i : ℕ) → from buf i (suc n) ≡ from buf i n ++ (buf ((i + n) % 1024) ∷ [])
unfolding from
from_snoc buf zero i = let e : i + 0 ≡ i = omega arith in rw e refl
from_snoc buf (suc n) i =
    let e : i + suc n ≡ i + 1 + n = omega arith in
    rw e (ap (λ l. buf (i % 1024) ∷ l) (from_snoc buf n (i + 1)))

from_put :
    (buf : ℕ → ℕ) (b n i : ℕ)
    → n < 1024
    → from (update buf ((i + n) % 1024) b) i (suc n) ≡ from buf i n ++ (b ∷ [])
from_put buf b n i h =
    let place = (i + n) % 1024 in
    let old = from_unseen buf b place n i (λ k l e. omega arith) in
    let new = update_self buf place b in from_snoc (update buf place b) n i ∙ rw (old, new) refl

-- A byte goes to the end of a queue that is not full.
pub contents-ring_put :
    (b : ℕ) (r : Ring)
    → IsRing r
    → r.count < ring_size
    → contents (ring_put b r) ≡ contents r ++ (b ∷ [])
unfolding contents ring_put
contents-ring_put b r v h =
    let c : u32 (r.count + 1) ≡ suc r.count = omega arith in
    rw (c, v.head_lem) (from_put r.buf b r.count r.tail h)

pub ring_put-IsRing : (b : ℕ) (r : Ring) → IsRing r → r.count < ring_size → IsRing (ring_put b r)
unfolding ring_put
ring_put-IsRing b r v h = record {
  tail_in = v.tail_in;
  count_in = omega arith;
  head_lem = omega (arith, v.head_lem, v.tail_in);
}

-- The oldest byte of a queue that is not empty goes.
pub contents-ring_drop :
    (r : Ring) → IsRing r → 1 ≤ r.count → contents r ≡ r.buf r.tail ∷ contents (ring_drop r)
unfolding contents ring_drop from
contents-ring_drop r v h =
    let c : r.count ≡ suc (r.count - 1) = omega arith in
    let c' : u32 (r.count + 2 ^ 32 - 1) ≡ r.count - 1 = omega (arith, v.count_in) in
    let t : r.tail % 1024 ≡ r.tail = omega (arith, v.tail_in) in
    let t' : u32 (r.tail + 1) % 1024 ≡ (r.tail + 1) % 1024 = omega (arith, v.tail_in) in
    let rest = sym (from_wrap r.buf (r.count - 1) (r.tail + 1)) in
    ap (λ n. from r.buf r.tail n) c ∙ rw (t, rest, c', t') refl

pub ring_drop-IsRing : (r : Ring) → IsRing r → 1 ≤ r.count → IsRing (ring_drop r)
unfolding ring_drop
ring_drop-IsRing r v h = record {
  tail_in = omega arith;
  count_in = omega (arith, v.count_in);
  head_lem = omega (arith, v.head_lem, v.tail_in, v.count_in);
}

pub ring_drop_count : (r : Ring) → IsRing r → 1 ≤ r.count → (ring_drop r).count < ring_size
unfolding ring_drop
ring_drop_count r v h = omega (arith, v.count_in)

unfoldable pub length : List ℕ → ℕ
length [] = 0
length (x ∷ xs) = suc (length xs)

length-from : (buf : ℕ → ℕ) (n i : ℕ) → length (from buf i n) ≡ n
unfolding length from
length-from buf zero i = refl
length-from buf (suc n) i = ap suc (length-from buf n (i + 1))

pub length-contents : (r : Ring) → length (contents r) ≡ r.count
unfolding contents
length-contents r = length-from r.buf r.count r.tail
