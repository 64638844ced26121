-- ===== src/Ring/Concurrent/Alone.antt =====
-- A call of the producer or of the consumer of src/buffer/ring_buffer.c that no step of the other thread
-- interrupts.
use native.Mathlib.Decide.{ℕ_discrete}
use fast_ring.Prelude.{
  ℕ, suc, ◌-◌, ◌≡◌, ◌≤◌, ◌<◌, refl, sym, ap, ◌∙◌, arith, Option, none, some, List, [], ◌∷◌, ◌++◌,
  append-nil, ltb, ◌==◌, ◌&&◌, if◌then◌else◌, add64, length, length-take, length-replicate, take,
  take-take, take_front, drop, min, replicate, bit_and, add32, u32_mod,
}
use fast_ring.Types.{Sample}
use fast_ring.Ring.{RingBuffer, count, next_index, push, pop, push_batch, pop_batch}
use fast_ring.Ring.Inv.{IsValid, next-mod}
use fast_ring.Ring.Window.{blank, contents}
use fast_ring.Ring.Transfer.{deposit, withdraw, deposit-nil, length-contents}
use fast_ring.Ring.Single.{push-full, push-room, pop-empty, pop-held}
use fast_ring.Ring.PushBatch.{push_batch_lem}
use fast_ring.Ring.PopBatch.{contents-cons, pop_batch_held, pop_batch_none}
use fast_ring.Ring.Concurrent.{
  one, batch, single, up_to, System, Turn, producer_turn, consumer_turn, run, start,
}
use fast_ring.Ring.Concurrent.Steps.{push_stays, push_runs, pop_stays, pop_runs}
use fast_ring.Ring.Concurrent.Safety.{AreTurns}
use fast_ring.Ring.Concurrent.Begin.{
  begin-one_full, begin-one_room, begin-single_empty, begin-single_held, begin-batch_none,
  begin-batch_some, begin-up_to_none, begin-up_to_some, moved_head, moved_tail,
}

abbrev listed : Option Sample → List Sample
listed none = []
listed (some x) = x ∷ []

-- What the operation itself makes of a buffer with both threads between calls: `ring_buffer_push`,
-- `ring_buffer_push_batch`, `ring_buffer_pop`, `ring_buffer_pop_batch`.
pub after : RingBuffer → Turn → System
after rb (producer_turn (one x)) =
    let (done, rb') = push rb x in
    record (start rb) { ring = rb'; accepted = contents rb ++ (if done then x ∷ [] else []) }
after rb (producer_turn (batch xs)) =
    let q = push_batch rb xs (length xs) in
    record (start rb) { ring = q.ring; accepted = contents rb ++ take q.pushed xs }
after rb (consumer_turn single) =
    let (done, sample, rb') = pop rb in record (start rb) { ring = rb'; taken = listed sample }
after rb (consumer_turn (up_to n)) =
    let p = pop_batch rb (replicate n blank) n in
    record (start rb) { ring = p.ring; taken = take p.popped p.samples }

-- Steps of one thread alone that come to what the operation does.
abbrev pub Completes : RingBuffer → Turn → Type 0
Completes rb t = (k : ℕ) × (run (start rb) (replicate (suc k) t) ≡ after rb t)

module _ {rb : RingBuffer} (v : IsValid rb) where
  one-Completes : (x : Sample) → Completes rb (producer_turn (one x))
  unfolding after
  one-Completes x = elim (ℕ_discrete (count rb) (rb.capacity - 1)) [
    | yes full ↦ (
      0,
      push_stays v (one x) (record rb { dropped = add64 rb.dropped 1 }) (begin-one_full v x full)
          ∙ rw (push-full v x full) (λ i. record (start rb) {
            ring = record rb { dropped = add64 rb.dropped 1 };
            accepted = sym (append-nil (contents rb)) i;
          }),
    )
    | no room ↦ (
      2,
      push_runs v (one x) (x ∷ []) (next_index rb rb.head) 0 (begin-one_room v x room)
            (next-mod v rb.head v.head_in)
          ∙ rw (push-room v x room) (λ i. record (start rb) {
            ring = record (deposit rb (x ∷ [])) { dropped = same i };
            accepted = contents rb ++ (x ∷ []);
          }),
    )
  ]
    where
      same : add64 rb.dropped 0 ≡ rb.dropped
      same = omega (arith, v.dropped_in)

  batch-Completes :
      (xs : List Sample) → length xs < u32_mod → Completes rb (producer_turn (batch xs))
  unfolding after
  batch-Completes xs word = elim (ℕ_discrete k 0) [
    | yes none_fit ↦ (
      0,
      push_stays v (batch xs) (record rb { dropped = add64 rb.dropped (length xs) })
            (begin-batch_none v xs word k refl none_fit)
          ∙ rw pushed (λ i. record (start rb) {
            ring = record (stays none_fit i) { dropped = counted none_fit i };
            accepted = held none_fit i;
          }),
    )
    | no some_fit ↦ (
      suc (length (take k xs)),
      push_runs v (batch xs) (take k xs) (bit_and (add32 rb.head k) rb.mask) (length xs - k)
            (begin-batch_some v xs word k refl some_fit) (moved_head v xs word k refl)
          ∙ rw pushed refl,
    )
  ]
    where
      k : ℕ
      k = min (length xs) (rb.capacity - 1 - count rb)

      pushed : push_batch rb xs (length xs) ≡ record {
        all = ltb 0 (length xs) && k == length xs;
        pushed = k;
        ring = record (deposit rb (take k xs)) { dropped = add64 rb.dropped (length xs - k) };
      }
      pushed = push_batch_lem v xs (length xs) (omega arith) k word refl

      stays : k ≡ 0 → rb ≡ deposit rb (take k xs)
      stays none_fit =
          sym (deposit-nil v) ∙ ap (λ j. deposit rb (take j xs)) {x = 0} {y = k} (sym none_fit)

      counted : k ≡ 0 → add64 rb.dropped (length xs) ≡ add64 rb.dropped (length xs - k)
      counted none_fit = omega arith

      held : k ≡ 0 → contents rb ≡ contents rb ++ take k xs
      held none_fit =
          sym (append-nil (contents rb))
          ∙ ap (λ j. contents rb ++ take j xs) {x = 0} {y = k} (sym none_fit)

  single-Completes : Completes rb (consumer_turn single)
  unfolding after
  single-Completes = elim (ℕ_discrete (count rb) 0) [
    | yes empty ↦ (0, pop_stays v single (begin-single_empty v empty) ∙ rw (pop-empty v empty) refl)
    | no some_held ↦ (
      2,
      pop_runs v single 1 (next_index rb rb.tail) (begin-single_held v some_held)
            (next-mod v rb.tail v.tail_in) (omega arith)
          ∙ rw (pop-held v some_held) (λ i. record (start rb) {
            ring = withdraw rb 1;
            taken = take 1 (contents-cons rb some_held i);
          }),
    )
  ]

  up_to-Completes : (n : ℕ) → Completes rb (consumer_turn (up_to n))
  unfolding after
  up_to-Completes n = elim (ℕ_discrete (min n (count rb)) 0) [
    | yes nothing ↦ (
      0,
      pop_stays v (up_to n) (begin-up_to_none v n (min n (count rb)) refl nothing)
          ∙ rw (pop_batch_none v (replicate n blank) n nothing) refl,
    )
    | no something ↦
        let k = min n (count rb) in
        (
          suc k,
          pop_runs v (up_to n) k (bit_and (add32 rb.tail k) rb.mask)
                (begin-up_to_some v n k refl something) (moved_tail v n k refl) (omega arith)
              ∙ rw
                  (pop_batch_held v (replicate n blank) n k refl something
                    (omega (arith, length-replicate n blank)))
                  (λ i. record (start rb) {
                    ring = withdraw rb k;
                    taken = sym (copied k (omega arith)) i;
                  }),
        )
  ]
    where
      copied :
          (k : ℕ)
          → k ≤ count rb
          → take k (take k (contents rb) ++ drop k (replicate n blank)) ≡ take k (contents rb)
      copied k h =
          take_front k (take k (contents rb)) (drop k (replicate n blank))
            (omega (arith, length-take k (contents rb), length-contents v))
          ∙ take-take k k (contents rb) (omega arith)

  -- A call that is not interrupted, taken step by step as in the interleavings, ends with both threads
  -- between calls, and does to the buffer, accepts and takes what the operation does.
  pub run-Completes : (t : Turn) → AreTurns (t ∷ []) → Completes rb t
  run-Completes (producer_turn (one x)) word = one-Completes x
  run-Completes (producer_turn (batch xs)) word = batch-Completes xs word.0
  run-Completes (consumer_turn single) word = single-Completes
  run-Completes (consumer_turn (up_to n)) word = up_to-Completes n
