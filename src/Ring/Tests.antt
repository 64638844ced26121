-- ===== src/Ring/Tests.antt =====
-- Runs of the ring buffer, and its theorems at concrete inputs.
use fast_ring.Prelude.{
  ℕ, ◌-◌, ◌≡◌, refl, arith, true, false, none, some, List, [], ◌∷◌, ltb, ◌&&◌, ◌==◌, length, ◌++◌,
  drop,
}
use fast_ring.Types.{Sample}
use fast_ring.Queue
use fast_ring.Queue.{
  Op, put, get, put_many, get_many, size, space, reset, done, got, took, gave, number, nothing,
}
use fast_ring.Ring.{
  RingBuffer, count, is_full, is_empty, available, push, pop, push_batch, pop_batch, clear,
  write_chunk, copy_in, copy_out,
}
use fast_ring.Ring.Inv.{IsValid}
use fast_ring.Ring.Window.{blank, contents}
use fast_ring.Ring.PushEach.{push_each}
use fast_ring.Ring.PushBatch.{push_batch-push_each}
use fast_ring.Ring.PopBatch.{pop_each, pop_batch-pop_each}
use fast_ring.Ring.Refine.{run, step, run_refines, step-IsValid, observers_lem, room}

abbrev numbered : ℕ → Sample
numbered n = record blank { sequence = n }

-- Three of at most three samples would fit; two are held, round the end of the block.
abbrev wrapped : RingBuffer
wrapped = record {
  head = 1;
  tail = 3;
  capacity = 4;
  mask = 3;
  buffer = numbered 9 ∷ numbered 6 ∷ numbered 7 ∷ numbered 8 ∷ [];
  dropped = 0;
}

wrapped-IsValid : IsValid wrapped
wrapped-IsValid = record {
  power = record { exponent = 2; value = refl; low = omega arith; high = omega arith };
  masked = refl;
  sized = refl;
  head_in = omega arith;
  tail_in = omega arith;
  dropped_in = omega arith;
}

abbrev batch : List Sample
batch = numbered 1 ∷ numbered 2 ∷ numbered 3 ∷ []

abbrev script : List Op
script =
    put_many batch
    ∷ size
    ∷ put (numbered 4)
    ∷ get_many (blank ∷ blank ∷ [])
    ∷ space
    ∷ get
    ∷ get
    ∷ reset
    ∷ size
    ∷ []

run-wrapped :
    run wrapped script
    ≡ took false 1
      ∷ number 3
      ∷ done false
      ∷ gave true 2 (numbered 8 ∷ numbered 9 ∷ [])
      ∷ number 2
      ∷ got true (some (numbered 1))
      ∷ got false none
      ∷ nothing
      ∷ number 0
      ∷ []
unfolding run step push pop push_batch pop_batch clear count available write_chunk copy_in copy_out
run-wrapped = refl

run_refines_example :
    run wrapped script
    ≡ Queue.run 3 (record { items = numbered 8 ∷ numbered 9 ∷ []; lost = 0 }) script
unfolding count
run_refines_example = run_refines script wrapped-IsValid (omega arith)

push_batch-push_each_example : push_batch wrapped batch 3 ≡ record {
  all = ltb 0 3 && (push_each wrapped batch).0 == 3;
  pushed = (push_each wrapped batch).0;
  ring = (push_each wrapped batch).1;
}
push_batch-push_each_example =
    push_batch-push_each batch 3 wrapped-IsValid (omega arith) (omega arith)

pop_batch-pop_each_example :
    let (ys, last) = pop_each wrapped 3 in
    pop_batch wrapped batch 3 ≡ record {
      some_popped = ltb 0 (length ys);
      samples = ys ++ drop (length ys) batch;
      popped = length ys;
      ring = last;
    }
pop_batch-pop_each_example = pop_batch-pop_each batch 3 wrapped-IsValid (omega arith)

step-IsValid_example : IsValid (step wrapped (put_many batch)).1
step-IsValid_example = step-IsValid (put_many batch) wrapped-IsValid (omega arith)

observers_lem_example :
    (count wrapped ≡ length (contents wrapped))
    × (is_empty wrapped ≡ (length (contents wrapped) == 0))
    × (is_full wrapped ≡ (length (contents wrapped) == room wrapped))
    × (available wrapped ≡ room wrapped - length (contents wrapped))
observers_lem_example = observers_lem wrapped-IsValid
