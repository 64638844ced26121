-- ===== src/Ring/Concurrent/Tests.antt =====
-- Two threads on a ring buffer whose samples go round the end of the block.
use fast_ring.Prelude.{ℕ, ◌≡◌, ◌≢◌, refl, arith, List, [], ◌∷◌, ◌++◌}
use fast_ring.Types.{Sample}
use fast_ring.Ring.{RingBuffer, count, available}
use fast_ring.Ring.Inv.{IsValid}
use fast_ring.Ring.Window.{blank, contents}
use fast_ring.Ring.Concurrent.{
  batch, up_to, Write, Read, writing, reading, Turn, producer_turn, consumer_turn, run, turn, start,
  begin_push, begin_pop, write_step, read_step, produce, consume,
}
use fast_ring.Ring.Concurrent.Alone.{Completes, run-Completes}
use fast_ring.Ring.Concurrent.Safety.{run-history, run-IsValid, slots-run}

abbrev numbered : ℕ → Sample
numbered n = record blank { sequence = n }

-- One sample held, in the last slot.
abbrev late : RingBuffer
late = record {
  head = 0;
  tail = 3;
  capacity = 4;
  mask = 3;
  buffer = numbered 1 ∷ numbered 2 ∷ numbered 3 ∷ numbered 4 ∷ [];
  dropped = 0;
}

late-IsValid : IsValid late
late-IsValid = record {
  power = record { exponent = 2; value = refl; low = omega arith; high = omega arith };
  masked = refl;
  sized = refl;
  head_in = omega arith;
  tail_in = omega arith;
  dropped_in = omega arith;
}

abbrev offer : Turn
offer = producer_turn (batch (numbered 5 ∷ numbered 6 ∷ numbered 7 ∷ []))

abbrev ask : Turn
ask = consumer_turn (up_to 2)

-- The push begins first and finds room for two; the pop begins between its two writes.
abbrev mixed : List Turn
mixed = offer ∷ offer ∷ ask ∷ offer ∷ ask ∷ offer ∷ ask ∷ ask ∷ ask ∷ ask ∷ ask ∷ []

run-mixed :
    let s = run (start late) mixed in
    (s.accepted ≡ numbered 4 ∷ numbered 5 ∷ numbered 6 ∷ [])
    × (s.taken ≡ numbered 4 ∷ numbered 5 ∷ numbered 6 ∷ [])
    × (s.ring.dropped ≡ 1)
unfolding run turn produce consume begin_push begin_pop write_step read_step count available
run-mixed = (refl, refl, refl)

run-history_example : let s = run (start late) mixed in s.accepted ≡ s.taken ++ contents s.ring
run-history_example = run-history mixed late-IsValid (omega arith)

run-IsValid_example : IsValid (run (start late) mixed).ring
run-IsValid_example = run-IsValid mixed late-IsValid (omega arith)

-- After the first write, with the pop begun, slot 1 is next to be written and slot 3 to be read.
abbrev halfway : List Turn
halfway = offer ∷ offer ∷ ask ∷ []

abbrev half_write : Write
half_write = record {
  slot = 1;
  left = numbered 6 ∷ [];
  written = numbered 5 ∷ [];
  next_head = 2;
  short = 1;
}

abbrev half_read : Read
half_read = record { slot = 3; left = 1; copied = []; next_tail = 0 }

at_write : (run (start late) halfway).producer ≡ writing half_write
unfolding run turn produce consume begin_push begin_pop write_step read_step count available
at_write = refl

at_read : (run (start late) halfway).consumer ≡ reading half_read
unfolding run turn produce consume begin_push begin_pop write_step read_step count available
at_read = refl

slots-run_example : half_write.slot ≢ half_read.slot
slots-run_example =
    slots-run halfway late-IsValid (omega arith) at_write at_read (λ e. ground (arith, e))
      (omega arith)

-- A push of three samples, of which two find room.
run-Completes_example :
    Completes late (producer_turn (batch (numbered 5 ∷ numbered 6 ∷ numbered 7 ∷ [])))
run-Completes_example =
    run-Completes late-IsValid (producer_turn (batch (numbered 5 ∷ numbered 6 ∷ numbered 7 ∷ [])))
      (omega arith, tt)
