-- ===== src/Ring/PopBatch.antt =====
-- `ring_buffer_pop_batch` of src/buffer/ring_buffer.c against single pops in a row.
use native.Mathlib.Decide.{ℕ_discrete}
use fast_ring.Prelude.{
  ℕ, zero, suc, ◌+◌, ◌-◌, ◌≤◌, ◌≡◌, ◌≢◌, refl, sym, ap, ◌∙◌, arith, true, false, none, some, List,
  [], ◌∷◌, ◌++◌, ltb, length, length-take, take, drop, min, bit_and, add32,
}
use fast_ring.Types.{Sample}
use fast_ring.Ring.{RingBuffer, count, pop, pop_batch, copy_out}
use fast_ring.Ring.Inv.{IsValid, count-lt, advance-mod}
use fast_ring.Ring.Window.{slot, window, contents}
use fast_ring.Ring.Transfer.{
  withdraw, withdraw-IsValid, count-withdraw, contents-withdraw, withdraw-zero, withdraw-add,
  length-contents,
}
use fast_ring.Ring.Single.{pop-empty, pop-held}
use fast_ring.Ring.Chunks.{copy_out-contents, write_chunk-zero}

-- `ring_buffer_pop` up to `n` times, until it finds the buffer empty.
pub pop_each : RingBuffer → ℕ → List Sample × RingBuffer
pop_each rb zero = ([], rb)
pop_each rb (suc n) =
    let (found, sample, rb') = pop rb in
    let (rest, last) = pop_each rb' n in
    elim sample [ none ↦ ([], rb') | some x ↦ (x ∷ rest, last) ]

-- The first of the samples held, and the rest.
pub contents-cons :
    (rb : RingBuffer)
    → count rb ≢ 0
    → contents rb ≡ slot rb.buffer rb.capacity rb.tail ∷ drop 1 (contents rb)
contents-cons rb ne =
    opened ∙ ap (λ (ws : List Sample). slot rb.buffer rb.capacity rb.tail ∷ drop 1 ws) (sym opened)
  where
    opened : contents rb ≡ window rb.buffer rb.capacity rb.tail (suc (count rb - 1))
    opened = ap (window rb.buffer rb.capacity rb.tail) {y = suc (count rb - 1)} (omega arith)

-- What single pops come to: the oldest samples, in order.
pop_each_lem :
    (n m : ℕ) {rb : RingBuffer}
    → IsValid rb
    → m ≡ min n (count rb)
    → pop_each rb n ≡ (take m (contents rb), withdraw rb m)
unfolding pop_each
pop_each_lem zero m {rb} v e =
    (λ i. ([], sym (withdraw-zero v) i))
    ∙ ap (λ k. (take k (contents rb), withdraw rb k)) {x = 0} {y = m} (omega arith)
pop_each_lem (suc n) m {rb} v e = elim (ℕ_discrete (count rb) 0) [
  | yes empty ↦
      rw (pop-empty v empty, pop_each) (rw (pop-empty v empty) (λ i. ([], sym (withdraw-zero v) i)))
      ∙ ap (λ k. (take k (contents rb), withdraw rb k)) {x = 0} {y = m} (omega arith)
  | no held ↦
      rw (pop-held v held, pop_each)
        (rw
          (
            pop-held v held,
            pop_each_lem n (m - 1) (withdraw-IsValid v 1 (omega arith))
                (omega (arith, count-withdraw v 1 (omega arith))),
          )
          (λ i. (popped held i, withdraw-add rb 1 (m - 1) i)))
      ∙ ap (λ k. (take k (contents rb), withdraw rb k)) {x = 1 + (m - 1)} {y = m} (omega arith)
]
  where
    popped :
        count rb ≢ 0
        → slot rb.buffer rb.capacity rb.tail ∷ take (m - 1) (contents (withdraw rb 1))
          ≡ take (1 + (m - 1)) (contents rb)
    popped held =
        ap (λ ws. slot rb.buffer rb.capacity rb.tail ∷ take (m - 1) ws)
          (contents-withdraw v 1 (omega arith))
        ∙ ap (take (suc (m - 1))) (sym (contents-cons rb held))
        ∙ ap (λ k. take k (contents rb)) {x = suc (m - 1)} {y = 1 + (m - 1)} (omega arith)

module _ {rb : RingBuffer} (v : IsValid rb) (dst : List Sample) (n : ℕ) where
  pub pop_batch_held :
      (m : ℕ)
      → m ≡ min n (count rb)
      → m ≢ 0
      → m ≤ length dst
      → pop_batch rb dst n ≡ record {
        some_popped = true;
        samples = take m (contents rb) ++ drop m dst;
        popped = m;
        ring = withdraw rb m;
      }
  unfolding pop_batch
  pop_batch_held m e ne h =
      made ∙ λ i. record { some_popped = true; samples = copied i; popped = m; ring = moved i }
    where
      made : pop_batch rb dst n ≡ record {
        some_popped = true;
        samples = copy_out rb dst m;
        popped = m;
        ring = record rb { tail = bit_and (add32 rb.tail m) rb.mask };
      }
      made = ground arith

      moved :
          ◌≡◌ {A = RingBuffer}
            (record rb { tail = bit_and (add32 rb.tail m) rb.mask })
            (withdraw rb m)
      moved = λ i. record rb {
        tail = advance-mod v rb.tail m m v.tail_in (omega (arith, count-lt v)) refl i;
      }

      size : length (take m (contents rb)) ≡ m
      size = omega (arith, length-take m (contents rb), length-contents v)

      copied : copy_out rb dst m ≡ take m (contents rb) ++ drop m dst
      copied =
          copy_out-contents v dst m (omega arith)
          ∙ write_chunk-zero dst (take m (contents rb)) (omega (arith, size))
          ∙ ap (λ k. take m (contents rb) ++ drop k dst) size

  pub pop_batch_none :
      min n (count rb) ≡ 0
      → pop_batch rb dst n ≡ record { some_popped = false; samples = dst; popped = 0; ring = rb }
  unfolding pop_batch
  pop_batch_none e = ground arith

-- A batch pop keeps the invariant.
pub pop_batch-IsValid :
    {rb : RingBuffer} (dst : List Sample) (n : ℕ)
    → IsValid rb
    → n ≤ length dst
    → IsValid (pop_batch rb dst n).ring
pop_batch-IsValid {rb} dst n v h = elim (ℕ_discrete (min n (count rb)) 0) [
  | yes nothing ↦ rw (pop_batch_none v dst n nothing) v
  | no moved ↦
      rw (pop_batch_held v dst n _ refl moved (omega arith))
        (withdraw-IsValid v (min n (count rb)) (omega arith))
]

-- A batch pop is pops in turn, until the buffer is empty or the batch is full: it leaves the same
-- buffer, and puts what they give at the front of the caller's array, in order.
pub pop_batch-pop_each :
    {rb : RingBuffer} (dst : List Sample) (n : ℕ)
    → IsValid rb
    → n ≤ length dst
    → let (ys, last) = pop_each rb n in
      pop_batch rb dst n ≡ record {
        some_popped = ltb 0 (length ys);
        samples = ys ++ drop (length ys) dst;
        popped = length ys;
        ring = last;
      }
pop_batch-pop_each {rb} dst n v h = rw (pop_each_lem n m v refl) (elim (ℕ_discrete m 0) [
  | yes nothing ↦
      pop_batch_none v dst n nothing
      ∙ (λ i. record {
        some_popped = false;
        samples = dst;
        popped = 0;
        ring = sym (withdraw-zero v) i;
      })
      ∙ ap
          (λ k. record {
            some_popped = ltb 0 (length (take k (contents rb)));
            samples = take k (contents rb) ++ drop (length (take k (contents rb))) dst;
            popped = length (take k (contents rb));
            ring = withdraw rb k;
          })
          (sym nothing)
  | no moved ↦ pop_batch_held v dst n m refl moved (omega arith) ∙ λ i. record {
    some_popped = positive moved i;
    samples = take m (contents rb) ++ drop (sym size i) dst;
    popped = sym size i;
    ring = withdraw rb m;
  }
])
  where
    m : ℕ
    m = min n (count rb)

    size : length (take m (contents rb)) ≡ m
    size = omega (arith, length-take m (contents rb), length-contents v)

    positive : m ≢ 0 → true ≡ ltb 0 (length (take m (contents rb)))
    positive moved = ground (arith, size)
