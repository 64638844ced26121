-- ===== src/Ring/Concurrent/Begin.antt =====
-- What the tests at the start of the operations of src/buffer/ring_buffer.c come to, as first steps of a
-- thread.
use native.Mathlib.Decide.{ℕ_discrete}
use fast_ring.Prelude.{
  ℕ, ◌+◌, ◌-◌, ◌%◌, ◌≡◌, ◌≢◌, ◌<◌, refl, arith, true, false, List, [], ◌∷◌, ltb, ◌==◌,
  if◌then◌else◌, add64, sub32, length, length-take, take, min, bit_and, add32, u32_mod,
}
use fast_ring.Types.{Sample}
use fast_ring.Ring.{RingBuffer, count, available, next_index}
use fast_ring.Ring.Inv.{IsValid, available-eq, full-test, empty-test, advance-mod, count-lt}
use fast_ring.Ring.Concurrent.{
  one, batch, single, up_to, resting, writing, waiting, reading, begin_push, begin_pop,
}

-- What the tests of the single operations come to.
module _ {rb : RingBuffer} (v : IsValid rb) where
  pub begin-one_full :
      (x : Sample)
      → count rb ≡ rb.capacity - 1
      → begin_push rb (one x) ≡ (resting, record rb { dropped = add64 rb.dropped 1 })
  unfolding begin_push
  begin-one_full x full =
      let hit : (next_index rb rb.head == rb.tail) ≡ true = ground (arith, (full-test v).1 full) in
      rw hit refl

  pub begin-one_room :
      (x : Sample)
      → count rb ≢ rb.capacity - 1
      → begin_push rb (one x) ≡ (
        writing (record {
          slot = rb.head;
          left = x ∷ [];
          written = [];
          next_head = next_index rb rb.head;
          short = 0;
        }),
        rb,
      )
  unfolding begin_push
  begin-one_room x room =
      let miss : (next_index rb rb.head == rb.tail) ≡ false = ground (arith, (full-test v).0) in
      rw miss refl

  pub begin-single_empty : count rb ≡ 0 → begin_pop rb single ≡ waiting
  unfolding begin_pop
  begin-single_empty empty =
      let hit : (rb.head == rb.tail) ≡ true = ground (arith, (empty-test v).1 empty) in rw hit refl

  pub begin-single_held :
      count rb ≢ 0
      → begin_pop rb single
        ≡ reading
            (record { slot = rb.tail; left = 1; copied = []; next_tail = next_index rb rb.tail })
  unfolding begin_pop
  begin-single_held held =
      let miss : (rb.head == rb.tail) ≡ false = ground (arith, (empty-test v).0) in rw miss refl

-- The same for the batch operations; `k` samples are transferred.
module _ {rb : RingBuffer} (v : IsValid rb) (xs : List Sample) (word : length xs < u32_mod) (k : ℕ)
    (e : k ≡ min (length xs) (rb.capacity - 1 - count rb)) where
  pub begin-batch_none :
      k ≡ 0
      → begin_push rb (batch xs) ≡ (resting, record rb { dropped = add64 rb.dropped (length xs) })
  unfolding begin_push
  begin-batch_none none_fit = elim (ℕ_discrete (length xs) 0) [
    | yes none_given ↦
        let test : (length xs == 0) ≡ true = ground arith in
        rw test (λ i. (resting, record rb { dropped = same none_given i }))
    | no some_given ↦
        let test : (length xs == 0) ≡ false = ground arith in
        let room : ((if ltb (length xs) (available rb) then length xs else available rb) == 0)
            ≡ true =
          ground (arith, available-eq v) in
        rw (test, room) refl
  ]
    where
      same : length xs ≡ 0 → rb.dropped ≡ add64 rb.dropped (length xs)
      same none_given = omega (arith, v.dropped_in)

  pub begin-batch_some :
      k ≢ 0
      → begin_push rb (batch xs) ≡ (
        writing (record {
          slot = rb.head;
          left = take k xs;
          written = [];
          next_head = bit_and (add32 rb.head k) rb.mask;
          short = length xs - k;
        }),
        rb,
      )
  unfolding begin_push
  begin-batch_some some_fit =
      let given : (length xs == 0) ≡ false = ground arith in
      let fit : (if ltb (length xs) (available rb) then length xs else available rb) ≡ k =
        ground (arith, available-eq v) in
      let fits : (k == 0) ≡ false = ground arith in
      let short : (if ltb k (length xs) then sub32 (length xs) k else 0) ≡ length xs - k =
        ground arith in
      rw (given, fit) (rw fits (rw short refl))

  pub moved_head : bit_and (add32 rb.head k) rb.mask ≡ (rb.head + length (take k xs)) % rb.capacity
  moved_head =
      advance-mod v rb.head k (length (take k xs)) v.head_in (omega arith)
        (omega (arith, length-take k xs))

module _ {rb : RingBuffer} (v : IsValid rb) (n k : ℕ) (e : k ≡ min n (count rb)) where
  pub begin-up_to_none : k ≡ 0 → begin_pop rb (up_to n) ≡ waiting
  unfolding begin_pop
  begin-up_to_none nothing = ground arith

  pub begin-up_to_some :
      k ≢ 0
      → begin_pop rb (up_to n)
        ≡ reading (record {
          slot = rb.tail;
          left = k;
          copied = [];
          next_tail = bit_and (add32 rb.tail k) rb.mask;
        })
  unfolding begin_pop
  begin-up_to_some something =
      let given : (n == 0) ≡ false = ground arith in
      let fit : (if ltb n (count rb) then n else count rb) ≡ k = ground arith in
      let fits : (k == 0) ≡ false = ground arith in rw (given, fit) (rw fits refl)

  pub moved_tail : bit_and (add32 rb.tail k) rb.mask ≡ (rb.tail + k) % rb.capacity
  moved_tail = advance-mod v rb.tail k k v.tail_in (omega (arith, count-lt v)) refl
