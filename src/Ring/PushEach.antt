-- ===== src/Ring/PushEach.antt =====
-- `ring_buffer_push` of src/buffer/ring_buffer.c for several samples in a row.
use native.Mathlib.Decide.{dec_lt}
use fast_ring.Prelude.{
  drop_all, take-drop_join, length-drop, ℕ, suc, ◌+◌, ◌-◌, ◌<◌, ◌≡◌, sym, ap, ◌∙◌, arith, List, [],
  ◌∷◌, ◌++◌, add64, length, length-take, take, drop, if◌then◌else◌, min,
}
use fast_ring.Types.{Sample}
use fast_ring.Ring.{RingBuffer, count, push}
use fast_ring.Ring.Inv.{IsValid, count-lt, drop-IsValid}
use fast_ring.Ring.Transfer.{deposit, deposit-IsValid, count-deposit, deposit-nil, deposit-append}
use fast_ring.Ring.Single.{push-full, push-room}

-- `ring_buffer_push` of each sample in turn: how many it accepts, and the buffer left.
pub push_each : RingBuffer → List Sample → ℕ × RingBuffer
push_each rb [] = (0, rb)
push_each rb (x ∷ xs) =
    let (accepted, rb') = push rb x in
    let (n, last) = push_each rb' xs in (if accepted then n + 1 else n, last)

-- A full buffer drops each sample.
push_each_full :
    (xs : List Sample) {rb : RingBuffer}
    → IsValid rb
    → count rb ≡ rb.capacity - 1
    → push_each rb xs ≡ (0, record rb { dropped = add64 rb.dropped (length xs) })
unfolding push_each count
push_each_full [] {rb} v e = λ i. (0, record rb { dropped = still i })
  where
    still : rb.dropped ≡ add64 rb.dropped 0
    still = omega (arith, v.dropped_in)
push_each_full (x ∷ xs) {rb} v e = rw (push-full v x e) (
    rw (push_each_full xs {rb = record rb { dropped = add64 rb.dropped 1 }} kept e)
      (λ i. (0, record rb { dropped = total i })))
  where
    kept : IsValid (record rb { dropped = add64 rb.dropped 1 })
    kept = drop-IsValid (add64 rb.dropped 1) v (omega arith)

    total : add64 (add64 rb.dropped 1) (length xs) ≡ add64 rb.dropped (length (x ∷ xs))
    total = omega arith

-- While there is room each sample is accepted.
push_each_room :
    (ys zs : List Sample) {rb : RingBuffer}
    → IsValid rb
    → count rb + length ys < rb.capacity
    → push_each rb (ys ++ zs)
      ≡ (length ys + (push_each (deposit rb ys) zs).0, (push_each (deposit rb ys) zs).1)
unfolding push_each
push_each_room [] zs {rb} v h = rw (deposit-nil v) (λ i. (same i, (push_each rb zs).1))
  where
    same : (push_each rb zs).0 ≡ 0 + (push_each rb zs).0
    same = omega arith
push_each_room (y ∷ ys) zs {rb} v h = rw (push-room v y (omega arith)) (
    rw
      (push_each_room ys zs (deposit-IsValid v (y ∷ []) (omega arith))
        (omega (arith, count-deposit v (y ∷ []) (omega arith))))
      (rw (deposit-append rb (y ∷ []) ys)
        (λ i. (one_more i, (push_each (deposit rb (y ∷ ys)) zs).1))))
  where
    one_more :
        length ys + (push_each (deposit rb (y ∷ ys)) zs).0 + 1
        ≡ suc (length ys) + (push_each (deposit rb (y ∷ ys)) zs).0
    one_more = omega arith

-- What single pushes of a whole list come to: the first part that fits, and the rest dropped.
pub push_each_lem :
    {rb : RingBuffer} (xs : List Sample) (m : ℕ)
    → IsValid rb
    → m ≡ min (length xs) (rb.capacity - 1 - count rb)
    → push_each rb xs
      ≡ (m, record (deposit rb (take m xs)) { dropped = add64 rb.dropped (length xs - m) })
unfolding push_each
push_each_lem {rb} xs m v e =
    ap (push_each rb) (sym (take-drop_join m xs))
    ∙ push_each_room (take m xs) (drop m xs) v fits
    ∙ elim (dec_lt m (length xs)) [
      | yes p ↦
          rw (push_each_full (drop m xs) kept (full p))
            (λ i. (counted i, record (deposit rb (take m xs)) { dropped = lost i }))
      | no p ↦
          rw (drop_all xs m (omega arith), push_each)
            (λ i. (counted i, record (deposit rb (take m xs)) { dropped = none_lost p i }))
    ]
  where
    size : length (take m xs) ≡ m
    size = omega (arith, length-take m xs)

    fits : count rb + length (take m xs) < rb.capacity
    fits = omega (arith, size, count-lt v)

    kept : IsValid (deposit rb (take m xs))
    kept = deposit-IsValid v (take m xs) fits

    full : m < length xs → count (deposit rb (take m xs)) ≡ rb.capacity - 1
    full p = omega (arith, count-deposit v (take m xs) fits, size, count-lt v)

    counted : length (take m xs) + 0 ≡ m
    counted = omega (arith, size)

    lost : add64 rb.dropped (length (drop m xs)) ≡ add64 rb.dropped (length xs - m)
    lost = omega (arith, length-drop m xs)

    none_lost : ¬ (m < length xs) → rb.dropped ≡ add64 rb.dropped (length xs - m)
    none_lost p = omega (arith, v.dropped_in)
