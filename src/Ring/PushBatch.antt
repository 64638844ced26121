-- ===== src/Ring/PushBatch.antt =====
-- `ring_buffer_push_batch` of src/buffer/ring_buffer.c against single pushes in a row.
use native.Mathlib.Decide.{dec_lt, ℕ_discrete}
use fast_ring.Prelude.{
  take-take, bit_and, add32, ℕ, ◌+◌, ◌-◌, ◌%◌, ◌≤◌, ◌<◌, ◌≡◌, ◌≢◌, refl, sym, ap, ap₂, ◌∙◌, arith,
  Bool, true, false, List, ◌==◌, ltb, add64, length, length-take, take, u32_mod, min, ◌&&◌,
}
use fast_ring.Types.{Sample}
use fast_ring.Ring.{RingBuffer, count, push_batch, copy_in, Pushed}
use fast_ring.Ring.Inv.{IsValid, count-lt, drop-IsValid, available-eq, advance-mod}
use fast_ring.Ring.Transfer.{deposit, deposit-IsValid, deposit-nil}
use fast_ring.Ring.Chunks.{copy_in-write_ring}
use fast_ring.Ring.PushEach.{push_each, push_each_lem}

-- Both the copied block and the new head of a batch are those of a transfer.
module _ {rb : RingBuffer} (v : IsValid rb) (xs : List Sample) (n : ℕ) (have : n ≤ length xs) where
  push_batch_ring :
      (m d : ℕ)
      → m ≤ n
      → m < rb.capacity
      → ◌≡◌ {A = RingBuffer}
          (record rb {
            buffer = copy_in rb xs m;
            head = bit_and (add32 rb.head m) rb.mask;
            dropped = d;
          })
          (record (deposit rb (take m xs)) { dropped = d })
  push_batch_ring m d h l = λ i. record rb {
    buffer = copy_in-write_ring v xs m (omega arith) l i;
    head = moved i;
    dropped = d;
  }
    where
      moved : bit_and (add32 rb.head m) rb.mask ≡ (rb.head + length (take m xs)) % rb.capacity
      moved =
          advance-mod v rb.head m (length (take m xs)) v.head_in (omega arith)
            (omega (arith, length-take m xs))

  -- A batch that fits is put behind the samples held.
  pub push_batch_fits :
      n ≢ 0
      → n ≤ rb.capacity - 1 - count rb
      → push_batch rb xs n ≡ record { all = true; pushed = n; ring = deposit rb (take n xs) }
  unfolding push_batch
  push_batch_fits ne h = ground (arith, available-eq v, push_batch_ring n rb.dropped)

  -- Of a larger one the first samples are, and the others are counted as dropped.
  pub push_batch_partial :
      n < u32_mod
      → rb.capacity - 1 - count rb < n
      → push_batch rb xs n ≡ record {
        all = false;
        pushed = rb.capacity - 1 - count rb;
        ring = record (deposit rb (take (rb.capacity - 1 - count rb) xs)) {
          dropped = add64 rb.dropped (n - (rb.capacity - 1 - count rb));
        };
      }
  unfolding push_batch
  push_batch_partial small h = elim (ℕ_discrete (rb.capacity - 1 - count rb) 0) [
    | yes full ↦
        none_fit full
        ∙ ap₂
            (λ k r. record {
              all = false;
              pushed = k;
              ring = record r { dropped = add64 rb.dropped (n - k) };
            })
            (sym full) (sym (deposit-nil v) ∙ ap (λ k. deposit rb (take k xs)) (sym full))
    | no room ↦ ground (
      arith,
      available-eq v,
      push_batch_ring (rb.capacity - 1 - count rb)
          (add64 rb.dropped (n - (rb.capacity - 1 - count rb))),
    )
  ]
    where
      none_fit :
          rb.capacity - 1 - count rb ≡ 0
          → push_batch rb xs n ≡ record {
            all = false;
            pushed = 0;
            ring = record rb { dropped = add64 rb.dropped (n - 0) };
          }
      none_fit full = ground (arith, available-eq v)

  push_batch_none : n ≡ 0 → push_batch rb xs n ≡ record { all = false; pushed = 0; ring = rb }
  unfolding push_batch
  push_batch_none e = ground arith

  -- On every branch: the samples that fit are put behind those held, and the others are counted.
  pub push_batch_lem :
      (k : ℕ)
      → n < u32_mod
      → k ≡ min n (rb.capacity - 1 - count rb)
      → push_batch rb xs n ≡ record {
        all = ltb 0 n && k == n;
        pushed = k;
        ring = record (deposit rb (take k xs)) { dropped = add64 rb.dropped (n - k) };
      }
  push_batch_lem k small e = elim (dec_lt (rb.capacity - 1 - count rb) n) [
    | yes larger ↦
        push_batch_partial small larger
        ∙ ap₂ (λ b m. outcome b m) {x = false} {y = ltb 0 n && k == n}
            {u = rb.capacity - 1 - count rb} {v = k} (ground arith) (omega arith)
    | no fitting ↦ elim (ℕ_discrete n 0) [
      | yes nothing ↦
          push_batch_none nothing
          ∙ (λ i. record {
            all = false;
            pushed = 0;
            ring = record (sym (deposit-nil v) i) { dropped = same nothing i };
          })
          ∙ ap₂ (λ b m. outcome b m) {x = false} {y = ltb 0 n && k == n} {u = 0} {v = k}
              (ground arith) (omega arith)
      | no something ↦
          push_batch_fits something (omega arith)
          ∙ (λ i. record {
            all = true;
            pushed = n;
            ring = record (deposit rb (take n xs)) { dropped = none_lost i };
          })
          ∙ ap₂ (λ b m. outcome b m) {x = true} {y = ltb 0 n && k == n} {u = n} {v = k}
              (ground arith) (omega arith)
    ]
  ]
    where
      outcome : Bool → ℕ → Pushed
      outcome b m = record {
        all = b;
        pushed = m;
        ring = record (deposit rb (take m xs)) { dropped = add64 rb.dropped (n - m) };
      }

      none_lost : rb.dropped ≡ add64 rb.dropped (n - n)
      none_lost = omega (arith, v.dropped_in)

      same : n ≡ 0 → rb.dropped ≡ add64 rb.dropped (n - 0)
      same e = omega (arith, v.dropped_in)

-- A batch push keeps the invariant.
pub push_batch-IsValid :
    {rb : RingBuffer} (xs : List Sample) (n : ℕ)
    → IsValid rb
    → n ≤ length xs
    → n < u32_mod
    → IsValid (push_batch rb xs n).ring
push_batch-IsValid {rb} xs n v have small = rw (push_batch_lem v xs n have k small refl) (
    drop-IsValid (add64 rb.dropped (n - k))
      (deposit-IsValid v (take k xs) (omega (arith, length-take k xs, count-lt v))) (omega arith))
  where
    k : ℕ
    k = min n (rb.capacity - 1 - count rb)

-- On a valid buffer a batch push of fewer than 2^32 samples is the pushes of its samples in turn, each of
-- which refuses its sample if there is no room: the same buffer, indices and counter of dropped samples,
-- the number accepted, and whether all were, which an empty batch denies.
pub push_batch-push_each :
    {rb : RingBuffer} (xs : List Sample) (n : ℕ)
    → IsValid rb
    → n ≤ length xs
    → n < u32_mod
    → let (k, last) = push_each rb (take n xs) in
      push_batch rb xs n ≡ record { all = ltb 0 n && k == n; pushed = k; ring = last }
push_batch-push_each {rb} xs n v have small =
    push_batch_lem v xs n have k small refl
    ∙ rw (push_each_lem (take n xs) k v (omega (arith, size))) (
        rw (take-take k n xs (omega arith)) (λ i. record {
          all = ltb 0 n && k == n;
          pushed = k;
          ring = record (deposit rb (take k xs)) { dropped = add64 rb.dropped (sym size i - k) };
        }))
  where
    k : ℕ
    k = min n (rb.capacity - 1 - count rb)

    size : length (take n xs) ≡ n
    size = omega (arith, length-take n xs)
