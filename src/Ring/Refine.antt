-- ===== src/Ring/Refine.antt =====
-- The ring buffer of src/buffer/ring_buffer.c as the bounded queue of `Queue`: call by call, and for
-- every sequence of calls.
use native.Mathlib.Decide.{ℕ_discrete}
use fast_ring.Prelude.{
  ℕ, ◌+◌, ◌-◌, ◌<◌, ◌≡◌, ◌≢◌, refl, sym, ap, ◌∙◌, arith, Bool, true, false, Option, none, some,
  List, [], ◌∷◌, ◌++◌, ltb, length, length-take, ◌&&◌, ◌==◌, take, drop, min, u32_mod, add64,
}
use fast_ring.Types.{Sample}
use fast_ring.Queue
use fast_ring.Queue.{
  Queue, Op, put, get, put_many, get_many, size, space, reset, Reply, done, got, took, gave, number,
  nothing,
}
use fast_ring.Ring.{
  RingBuffer, count, is_empty, is_full, available, push, pop, push_batch, pop_batch, clear,
}
use fast_ring.Ring.Inv.{
  IsValid, count-lt, available-eq, empty-test, full-test, push-IsValid, pop-IsValid, clear-IsValid,
  count-clear, count-drop,
}
use fast_ring.Ring.Window.{slot, window, contents}
use fast_ring.Ring.Transfer.{deposit, contents-deposit, contents-withdraw, length-contents}
use fast_ring.Ring.Single.{push-full, push-room, pop-empty, pop-held}
use fast_ring.Ring.PushBatch.{push_batch_lem, push_batch-IsValid}
use fast_ring.Ring.PopBatch.{contents-cons, pop_batch_held, pop_batch_none, pop_batch-IsValid}

-- What a user may know of a buffer.
abbrev pub view : RingBuffer → Queue
view rb = record { items = contents rb; lost = rb.dropped }

-- The most samples that a buffer holds: one slot stays empty.
abbrev pub room : RingBuffer → ℕ
room rb = rb.capacity - 1

-- One call of a user. `ring_buffer_pop_batch` is asked for as many samples as the array takes.
unfoldable pub step : RingBuffer → Op → Reply × RingBuffer
step rb (put x) = let (b, rb') = push rb x in (done b, rb')
step rb get = let (b, x, rb') = pop rb in (got b x, rb')
step rb (put_many xs) = let p = push_batch rb xs (length xs) in (took p.all p.pushed, p.ring)
step rb (get_many dst) =
    let p = pop_batch rb dst (length dst) in (gave p.some_popped p.popped p.samples, p.ring)
step rb size = (number (count rb), rb)
step rb space = (number (available rb), rb)
step rb reset = (nothing, clear rb)

unfoldable pub run : RingBuffer → List Op → List Reply
run rb [] = []
run rb (op ∷ ops) = let (reply, rb') = step rb op in reply ∷ run rb' ops

-- The length of an array is a `uint32_t`.
abbrev pub IsCall : Op → Type 0
IsCall (put_many xs) = length xs < u32_mod
IsCall (get_many dst) = length dst < u32_mod
IsCall _ = Unit {0}

abbrev pub AreCalls : List Op → Type 0
AreCalls [] = Unit {0}
AreCalls (op ∷ ops) = IsCall op × AreCalls ops

pub view-drop :
    (rb : RingBuffer) (d : ℕ)
    → view (record rb { dropped = d }) ≡ record { items = contents rb; lost = d }
view-drop rb d =
    ap (λ k. record { items = window rb.buffer rb.capacity rb.tail k; lost = d }) (count-drop rb d)

module _ {rb : RingBuffer} (v : IsValid rb) where
  -- `ring_buffer_push` returns what the queue's `push` returns, and leaves its queue.
  pub push_refines :
      (x : Sample) → let (b, rb') = push rb x in (b, view rb') ≡ Queue.push (room rb) (view rb) x
  unfolding Queue.push
  push_refines x = elim (ℕ_discrete (count rb) (room rb)) [
    | yes full ↦ rw (push-full v x full) (
        ap (λ q. (false, q)) (view-drop rb (add64 rb.dropped 1))
        ∙ ground (arith, length-contents v))
    | no space_left ↦ rw (push-room v x space_left) (
        ap (λ ws. (true, record { items = ws; lost = rb.dropped }))
          (contents-deposit v (x ∷ []) (omega (arith, count-lt v)))
        ∙ ground (arith, length-contents v))
  ]

  -- `ring_buffer_pop` returns what the queue's `pop` returns, with the oldest sample, and leaves its
  -- queue.
  pub pop_refines : let (b, x, rb') = pop rb in (b, x, view rb') ≡ Queue.pop (view rb)
  unfolding Queue.pop
  pop_refines = elim (ℕ_discrete (count rb) 0) [
    | yes empty ↦ rw (pop-empty v empty) (
        ap (λ (ws : List Sample). (false, none, record { items = ws; lost = rb.dropped }))
          (nil_of_empty empty)
        ∙ sym (
            ap (λ (ws : List Sample). Queue.pop (record { items = ws; lost = rb.dropped }))
              (nil_of_empty empty)))
    | no held ↦ rw (pop-held v held) (
        ap
          (λ ws. (
            true,
            some (slot rb.buffer rb.capacity rb.tail),
            record { items = ws; lost = rb.dropped },
          ))
          (contents-withdraw v 1 (omega arith))
        ∙ sym (
            ap (λ (ws : List Sample). Queue.pop (record { items = ws; lost = rb.dropped }))
              (contents-cons rb held)))
  ]
    where
      nil_of_empty : count rb ≡ 0 → contents rb ≡ []
      nil_of_empty empty = ap (window rb.buffer rb.capacity rb.tail) empty

  push_batch_refines :
      (xs : List Sample)
      → length xs < u32_mod
      → let p = push_batch rb xs (length xs) in
        (took p.all p.pushed, view p.ring) ≡ Queue.push_many (room rb) (view rb) xs
  unfolding Queue.push_many
  push_batch_refines xs small = rw (push_batch_lem v xs (length xs) (omega arith) k small refl) (
      ap (λ q. (took (ltb 0 (length xs) && k == length xs) k, q)) left
      ∙ ap
          (λ m. (
            took (ltb 0 (length xs) && m == length xs) m,
            record { items = contents rb ++ take m xs; lost = add64 rb.dropped (length xs - m) },
          ))
          {x = k} {y = min (length xs) (room rb - length (contents rb))}
          (omega (arith, length-contents v)))
    where
      k : ℕ
      k = min (length xs) (rb.capacity - 1 - count rb)

      fits : count rb + length (take k xs) < rb.capacity
      fits = omega (arith, length-take k xs, count-lt v)

      left :
          view (record (deposit rb (take k xs)) { dropped = add64 rb.dropped (length xs - k) })
          ≡ record { items = contents rb ++ take k xs; lost = add64 rb.dropped (length xs - k) }
      left =
          view-drop (deposit rb (take k xs)) (add64 rb.dropped (length xs - k))
          ∙ ap (λ ws. record { items = ws; lost = add64 rb.dropped (length xs - k) })
              (contents-deposit v (take k xs) fits)

  pop_batch_refines :
      (dst : List Sample)
      → let p = pop_batch rb dst (length dst) in
        (gave p.some_popped p.popped p.samples, view p.ring) ≡ Queue.pop_many (view rb) dst
  unfolding Queue.pop_many
  pop_batch_refines dst = elim (ℕ_discrete m 0) [
    | yes nothing_moves ↦ rw (pop_batch_none v dst (length dst) nothing_moves) (
        ap outcome {x = 0} {y = min (length dst) (length (contents rb))}
          (omega (arith, length-contents v)))
    | no moved ↦ rw (pop_batch_held v dst (length dst) m refl moved (omega arith)) (
        (λ i. (
          gave (positive moved i) m (take m (contents rb) ++ drop m dst),
          record { items = contents-withdraw v m (omega arith) i; lost = rb.dropped },
        ))
        ∙ ap outcome {x = m} {y = min (length dst) (length (contents rb))}
            (omega (arith, length-contents v)))
  ]
    where
      m : ℕ
      m = min (length dst) (count rb)

      outcome : ℕ → Reply × Queue
      outcome k = (
        gave (ltb 0 k) k (take k (contents rb) ++ drop k dst),
        record { items = drop k (contents rb); lost = rb.dropped },
      )

      positive : m ≢ 0 → true ≡ ltb 0 m
      positive moved = ground arith

  -- Every call returns and writes what the queue's call does, and leaves its queue.
  pub step_refines :
      (op : Op)
      → IsCall op
      → let (reply, rb') = step rb op in (reply, view rb') ≡ Queue.step (room rb) (view rb) op
  unfolding step Queue.step clear
  step_refines (put x) c = ap (λ (t : Bool × Queue). (done t.0, t.1)) (push_refines x)
  step_refines get c = ap (λ (t : Bool × Option Sample × Queue). (got t.0 t.1, t.2)) pop_refines
  step_refines (put_many xs) c = push_batch_refines xs c
  step_refines (get_many dst) c = pop_batch_refines dst
  step_refines size c = ap (λ k. (number k, view rb)) (sym (length-contents v))
  step_refines space c =
      ap (λ k. (number k, view rb))
        (available-eq v ∙ ap (λ k. room rb - k) (sym (length-contents v)))
  step_refines reset c =
      ap (λ k. (nothing, record { items = window rb.buffer rb.capacity 0 k; lost = 0 }))
        (count-clear v)

-- Every call keeps the invariant and the capacity.
pub step-IsValid : {rb : RingBuffer} (op : Op) → IsValid rb → IsCall op → IsValid (step rb op).1
unfolding step
step-IsValid (put x) v c = push-IsValid x v
step-IsValid get v c = pop-IsValid v
step-IsValid (put_many xs) v c = push_batch-IsValid xs (length xs) v (omega arith) c
step-IsValid (get_many dst) v c = pop_batch-IsValid dst (length dst) v (omega arith)
step-IsValid size v c = v
step-IsValid space v c = v
step-IsValid reset v c = clear-IsValid v

-- The capacity of a buffer never changes.
pub capacity-step : (rb : RingBuffer) (op : Op) → (step rb op).1.capacity ≡ rb.capacity
unfolding step push pop push_batch pop_batch clear
capacity-step rb (put x) = ground arith
capacity-step rb get = ground arith
capacity-step rb (put_many xs) = ground arith
capacity-step rb (get_many dst) = ground arith
capacity-step rb size = refl
capacity-step rb space = refl
capacity-step rb reset = refl

-- No sequence of calls tells a valid buffer from the bounded first-in first-out queue of its samples, which
-- refuses and counts what is pushed when it is full, in any return value, sample or count written
-- through a pointer, if every array is shorter than 2^32.
pub run_refines :
    (ops : List Op) {rb : RingBuffer}
    → IsValid rb
    → AreCalls ops
    → run rb ops ≡ Queue.run (room rb) (view rb) ops
unfolding run Queue.run
run_refines [] v c = refl
run_refines (op ∷ ops) {rb} v c =
    rw (run_refines ops (step-IsValid op v c.0) c.1, ← step_refines v op c.0, capacity-step rb op)

-- The observers say of the samples held: how many there are, whether there is none, whether no more
-- fits, and how many more fit.
pub observers_lem :
    {rb : RingBuffer}
    → IsValid rb
    → (count rb ≡ length (contents rb))
      × (is_empty rb ≡ (length (contents rb) == 0))
      × (is_full rb ≡ (length (contents rb) == room rb))
      × (available rb ≡ room rb - length (contents rb))
unfolding is_empty is_full
observers_lem {rb} v = (
  sym (length-contents v),
  ground (arith, length-contents v, (empty-test v).0, (empty-test v).1),
  ground (arith, length-contents v, (full-test v).0, (full-test v).1),
  omega (arith, length-contents v, available-eq v),
)
