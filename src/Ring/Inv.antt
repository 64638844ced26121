-- ===== src/Ring/Inv.antt =====
-- The representation invariant of `ring_buffer_t`, and what the index arithmetic of
-- src/buffer/ring_buffer.c comes to under it.
use native.Mathlib.Nat.{
  mod-eq_of_lt, pow-le-pow_right, two-pow-succ, one-le-pow, add-zero, pow-zero, mod_self,
}
use native.Mathlib.Decide.{dec_lt}
use native.Mathlib.Numerals.{sub-one}
use fast_ring.Prelude.{
  ℕ, zero, suc, ◌+◌, ◌-◌, ◌*◌, ◌%◌, ◌^◌, ◌≤◌, ◌<◌, bit_and, ◌≡◌, refl, sym, ap, ◌∙◌, Bool-cases,
  ◌⊎◌, inl, inr, arith, leb, if◌then◌else◌, add32, sub32, add64, u32_mod, u64_mod, length,
  length-set, mod_unique, bit_and-mask, ◌==◌, ◌↔◌,
}
use fast_ring.Types.{Sample}
use fast_ring.Ring.{RingBuffer, count, available, next_index, push, pop, clear}

-- A power of two from 2 to 2^31, with its exponent.
pub record IsPower (c : ℕ) : Type 0 where
  pub exponent : ℕ
  pub value : c ≡ 2 ^ exponent
  pub low : 1 ≤ exponent
  pub high : exponent ≤ 31

-- One slot stays empty, so `head ≡ tail` means empty and both indices lie in the block.
pub record IsValid (rb : RingBuffer) : Type 0 where
  pub power : IsPower rb.capacity
  pub masked : rb.mask ≡ rb.capacity - 1
  pub sized : length rb.buffer ≡ rb.capacity
  pub head_in : rb.head < rb.capacity
  pub tail_in : rb.tail < rb.capacity
  pub dropped_in : rb.dropped < u64_mod

pub power_bounds : {c : ℕ} → IsPower c → (2 ≤ c) × (c ≤ 2 ^ 31)
power_bounds {c} p = (omega (arith, p.value, above), omega (arith, p.value, below))
  where
    above : 2 ^ 1 ≤ 2 ^ p.exponent
    above = pow-le-pow_right (omega arith) p.low

    below : 2 ^ p.exponent ≤ 2 ^ 31
    below = pow-le-pow_right (omega arith) p.high

-- The number of samples between two indices, going round at `c`.
abbrev pub gap : ℕ → ℕ → ℕ → ℕ
gap c head tail = if leb tail head then head - tail else head + c - tail

pow_add : (a b : ℕ) → 2 ^ (a + b) ≡ 2 ^ a * 2 ^ b
pow_add a zero = rw (add-zero a, pow-zero) (omega arith)
pow_add a (suc b) =
    ap (λ (t : ℕ). 2 ^ t) {x = a + suc b} {y = suc (a + b)} (omega arith)
    ∙ two-pow-succ (a + b)
    ∙ rw (pow_add a b, two-pow-succ b) (omega arith)

-- The modulus of a 32-bit word is a positive multiple of the capacity.
word-multiple : {c : ℕ} → IsPower c → (q : ℕ) × (u32_mod ≡ c * q + c)
word-multiple {c} p = (2 ^ (32 - p.exponent) - 1, split ∙ product (2 ^ (32 - p.exponent)) some_left)
  where
    split : u32_mod ≡ c * 2 ^ (32 - p.exponent)
    split = rw (p.value) (
        ap (λ (t : ℕ). 2 ^ t) {x = 32} {y = p.exponent + (32 - p.exponent)} (omega (arith, p.high))
        ∙ pow_add p.exponent (32 - p.exponent))

    some_left : 1 ≤ 2 ^ (32 - p.exponent)
    some_left = one-le-pow (32 - p.exponent) 2 (omega arith)

    product : (q : ℕ) → 1 ≤ q → c * q ≡ c * (q - 1) + c
    product zero h = absurd (omega arith)
    product (suc q) h = rw (sub-one) (omega arith)

-- The remainder of a difference of two indices taken as a 32-bit word.
sub32-mod : {c h t : ℕ} → IsPower c → h < c → t < c → sub32 h t % c ≡ gap c h t
sub32-mod {c} {h} {t} p hh ht =
    let (q, e) = word-multiple p in
    let (two, big) = power_bounds p in
    elim (Bool-cases (leb t h)) [
      | inl above ↦ rw above (
          ap (λ (k : ℕ). k % c) {x = sub32 h t} {y = h - t} (ground arith)
          ∙ mod-eq_of_lt {n = h - t} {m = c} (omega arith))
      | inr below ↦ rw below (mod_unique (sub32 h t) c q (h + c - t) (ground arith) (ground arith))
    ]

module _ {rb : RingBuffer} (v : IsValid rb) where
  pub mask-mod : (x : ℕ) → bit_and x rb.mask ≡ x % rb.capacity
  mask-mod x =
      ap (bit_and x) (v.masked ∙ ap (λ (t : ℕ). t - 1) v.power.value)
      ∙ bit_and-mask v.power.exponent x
      ∙ ap (λ (t : ℕ). x % t) (sym v.power.value)

  pub count-gap : count rb ≡ gap rb.capacity rb.head rb.tail
  unfolding count
  count-gap = mask-mod (sub32 rb.head rb.tail) ∙ sub32-mod v.power v.head_in v.tail_in

  -- The two ways in which the held samples may lie in the block.
  pub count-cases :
      ((rb.tail ≤ rb.head) × (count rb ≡ rb.head - rb.tail))
      ⊎ ((rb.head < rb.tail) × (count rb ≡ rb.head + rb.capacity - rb.tail))
  count-cases = elim (Bool-cases (leb rb.tail rb.head)) [
    | inl above ↦ inl (ground arith, rw above at count-gap)
    | inr below ↦ inr (ground arith, rw below at count-gap)
  ]

  pub count-lt : count rb < rb.capacity
  count-lt = omega (arith, count-cases, v.head_in, v.tail_in)

  -- An index moved on by `n`, which may be written `k`.
  pub advance-mod :
      (i n k : ℕ)
      → i < rb.capacity
      → n ≤ rb.capacity
      → n ≡ k
      → bit_and (add32 i n) rb.mask ≡ (i + k) % rb.capacity
  advance-mod i n k h l e =
      mask-mod (add32 i n)
      ∙ ap (λ (t : ℕ). t % rb.capacity) {x = add32 i n} {y = i + k}
          (omega (arith, power_bounds v.power, h, l, e))

  pub next-mod : (i : ℕ) → i < rb.capacity → next_index rb i ≡ (i + 1) % rb.capacity
  next-mod i h = advance-mod i 1 1 h (omega (arith, power_bounds v.power)) refl

  pub next-cases :
      (i : ℕ)
      → i < rb.capacity
      → ((i + 1 < rb.capacity) × (next_index rb i ≡ i + 1))
        ⊎ ((i + 1 ≡ rb.capacity) × (next_index rb i ≡ 0))
  next-cases i h = elim (dec_lt (i + 1) rb.capacity) [
    | yes p ↦ inl (p, next-mod i h ∙ mod-eq_of_lt p)
    | no p ↦ inr (
      omega arith,
      next-mod i h
          ∙ ap (λ (t : ℕ). t % rb.capacity) {x = i + 1} {y = rb.capacity} (omega arith)
          ∙ mod_self rb.capacity,
    )
  ]

  -- One slot of the block is never used.
  pub available-eq : available rb ≡ rb.capacity - 1 - count rb
  unfolding available
  available-eq = omega (arith, power_bounds v.power, count-lt)

  -- The test of `ring_buffer_push`, and of `ring_buffer_is_full`.
  pub full-test : (next_index rb rb.head ≡ rb.tail) ↔ (count rb ≡ rb.capacity - 1)
  full-test = (
    λ e. omega (arith, count-cases, next-cases rb.head v.head_in, v.head_in, v.tail_in),
    λ e. omega (arith, count-cases, next-cases rb.head v.head_in, v.head_in, v.tail_in),
  )

  -- The test of `ring_buffer_pop`, and of `ring_buffer_is_empty`.
  pub empty-test : (rb.head ≡ rb.tail) ↔ (count rb ≡ 0)
  empty-test = (
    λ e. omega (arith, count-cases, v.head_in, v.tail_in),
    λ e. omega (arith, count-cases, v.head_in, v.tail_in),
  )

pub count-le : {rb : RingBuffer} → IsValid rb → count rb ≤ rb.capacity - 1
count-le v = omega (arith, count-lt v)

pub count-drop : (rb : RingBuffer) (d : ℕ) → count (record rb { dropped = d }) ≡ count rb
unfolding count
count-drop rb d = refl

-- The counter of dropped samples wraps and touches nothing else.
pub drop-IsValid :
    {rb : RingBuffer} (d : ℕ) → IsValid rb → d < u64_mod → IsValid (record rb { dropped = d })
drop-IsValid d v h = record {
  power = v.power;
  masked = v.masked;
  sized = v.sized;
  head_in = v.head_in;
  tail_in = v.tail_in;
  dropped_in = h;
}

pub push-IsValid : {rb : RingBuffer} (x : Sample) → IsValid rb → IsValid (push rb x).1
unfolding push
push-IsValid {rb} x v = elim (Bool-cases (next_index rb rb.head == rb.tail)) [
  | inl full ↦ rw full (drop-IsValid (add64 rb.dropped 1) v (omega arith))
  | inr room ↦ rw room (record {
    power = v.power;
    masked = v.masked;
    sized = length-set rb.buffer rb.head x ∙ v.sized;
    head_in = omega (arith, next-cases v rb.head v.head_in, v.head_in);
    tail_in = v.tail_in;
    dropped_in = v.dropped_in;
  })
]

-- A read moves the tail alone.
move_tail-IsValid :
    {rb : RingBuffer} (t : ℕ) → IsValid rb → t < rb.capacity → IsValid (record rb { tail = t })
move_tail-IsValid t v h = record {
  power = v.power;
  masked = v.masked;
  sized = v.sized;
  head_in = v.head_in;
  tail_in = h;
  dropped_in = v.dropped_in;
}

pub pop-IsValid : {rb : RingBuffer} → IsValid rb → IsValid (pop rb).2
unfolding pop
pop-IsValid {rb} v = elim (Bool-cases (rb.head == rb.tail)) [
  | inl empty ↦ rw empty v
  | inr some_held ↦ rw some_held (
      move_tail-IsValid (next_index rb rb.tail) v
        (omega (arith, next-cases v rb.tail v.tail_in, v.tail_in)))
]

pub clear-IsValid : {rb : RingBuffer} → IsValid rb → IsValid (clear rb)
unfolding clear
clear-IsValid v = record {
  power = v.power;
  masked = v.masked;
  sized = v.sized;
  head_in = omega (arith, power_bounds v.power);
  tail_in = omega (arith, power_bounds v.power);
  dropped_in = omega arith;
}

pub count-clear : {rb : RingBuffer} → IsValid rb → count (clear rb) ≡ 0
unfolding clear
count-clear v = (empty-test (clear-IsValid v)).0 refl
