-- ===== src/Ring/Single.antt =====
-- `ring_buffer_push` and `ring_buffer_pop` of src/buffer/ring_buffer.c as transfers of one sample.
use native.Mathlib.Nat.{mod-eq_of_lt}
use fast_ring.Prelude.{
  ◌-◌, ◌%◌, ◌≡◌, ◌≢◌, sym, ap, ◌∙◌, inl, inr, arith, true, false, none, some, [], ◌∷◌, Bool-cases,
  ◌==◌, add64, set, get_elem?, get_or, get_elem?-eq-get_or,
}
use fast_ring.Types.{Sample}
use fast_ring.Ring.{RingBuffer, count, next_index, push, pop}
use fast_ring.Ring.Inv.{IsValid, full-test, empty-test, next-mod}
use fast_ring.Ring.Window.{slot, blank}
use fast_ring.Ring.Transfer.{write_ring, deposit, withdraw}

module _ {rb : RingBuffer} (v : IsValid rb) where
  pub push-full :
      (x : Sample)
      → count rb ≡ rb.capacity - 1
      → push rb x ≡ (false, record rb { dropped = add64 rb.dropped 1 })
  unfolding push
  push-full x e = let hit : next_index rb rb.head ≡ rb.tail = (full-test v).1 e in ground arith

  pub push-room :
      (x : Sample) → count rb ≢ rb.capacity - 1 → push rb x ≡ (true, deposit rb (x ∷ []))
  unfolding push write_ring
  push-room x ne = elim (Bool-cases (next_index rb rb.head == rb.tail)) [
    | inl hit ↦ absurd (ne ((full-test v).0 (ground arith)))
    | inr miss ↦ rw miss (λ i. (
      true,
      record rb { buffer = set rb.buffer (here i) x; head = next-mod v rb.head v.head_in i },
    ))
  ]
    where
      here : rb.head ≡ rb.head % rb.capacity
      here = sym (mod-eq_of_lt {n = rb.head} {m = rb.capacity} v.head_in)

  pub pop-empty : count rb ≡ 0 → pop rb ≡ (false, none, rb)
  unfolding pop
  pop-empty e = let hit : rb.head ≡ rb.tail = (empty-test v).1 e in ground arith

  pub pop-held :
      count rb ≢ 0 → pop rb ≡ (true, some (slot rb.buffer rb.capacity rb.tail), withdraw rb 1)
  unfolding pop
  pop-held ne = elim (Bool-cases (rb.head == rb.tail)) [
    | inl hit ↦ absurd (ne ((empty-test v).0 (ground arith)))
    | inr miss ↦
        rw miss (λ i. (true, oldest i, record rb { tail = next-mod v rb.tail v.tail_in i }))
  ]
    where
      oldest : get_elem? rb.buffer rb.tail ≡ some (slot rb.buffer rb.capacity rb.tail)
      oldest =
          get_elem?-eq-get_or rb.buffer rb.tail blank (omega (arith, v.sized, v.tail_in))
          ∙ ap (λ k. some (get_or rb.buffer k blank))
              (sym (mod-eq_of_lt {n = rb.tail} {m = rb.capacity} v.tail_in))
