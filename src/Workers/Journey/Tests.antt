-- ===== src/Workers/Journey/Tests.antt =====
-- Three samples of a simulator, of which one finds no room between the buffers.
use fast_ring.Prelude.{
  ℕ, ◌-◌, ◌≡◌, refl, arith, false, true, some, List, [], ◌∷◌, ◌++◌, ◌<◌, length, replicate,
  Sublistᴰ,
}
use fast_ring.Types.{Sample}
use fast_ring.Ring.{RingBuffer, count}
use fast_ring.Ring.Inv.{IsValid, count-gap}
use fast_ring.Ring.Window.{blank}
use fast_ring.Adc
use fast_ring.Adc.{Simulator, begin, round, tick, take_sample, next_time, deliver}
use fast_ring.Workers.Counts.{Pipeline, Event, sampled, processed, popped, run, IsTallied}
use fast_ring.Workers.Passing.{held, brought}
use fast_ring.Workers.Order.{brought_all, gathered_all}
use fast_ring.Workers.Journey.{given, Rising, run-Rising}

abbrev resting : Simulator
resting = record {
  address = 5;
  config = record {
    sample_rate = 400000;
    resolution = 16;
    channel_count = 1;
    enable_trigger = false;
  };
  is_running = false;
  sequence = 7;
  start_time = 0;
  callback = some 3;
  callback_data = 4;
  unjoined = 0;
}

abbrev ramp : ℕ → ℕ → ℕ → ℕ
ramp greatest now sequence = now

abbrev ticks : List Adc.Event
ticks = round 10 ∷ round 11 ∷ round 12 ∷ round 30 ∷ []

abbrev numbered : ℕ → ℕ → Sample
numbered n now = record blank { timestamp = now - 8; value = now; sequence = n }

abbrev empty_ring : ℕ → ℕ → RingBuffer
empty_ring capacity mask = record {
  head = 0;
  tail = 0;
  capacity = capacity;
  mask = mask;
  buffer = replicate capacity blank;
  dropped = 0;
}

four-IsValid : IsValid (empty_ring 4 3)
four-IsValid = record {
  power = record { exponent = 2; value = refl; low = omega arith; high = omega arith };
  masked = refl;
  sized = refl;
  head_in = omega arith;
  tail_in = omega arith;
  dropped_in = omega arith;
}

two-IsValid : IsValid (empty_ring 2 1)
two-IsValid = record {
  power = record { exponent = 1; value = refl; low = omega arith; high = omega arith };
  masked = refl;
  sized = refl;
  head_in = omega arith;
  tail_in = omega arith;
  dropped_in = omega arith;
}

abbrev quiet_line : Pipeline
quiet_line = record {
  capture = empty_ring 4 3;
  process = empty_ring 2 1;
  stats = record { total_samples = 0; dropped_samples = 0; sent_bytes = 0; send_errors = 0 };
  collected = 0;
}

quiet_line-IsTallied : IsTallied quiet_line
quiet_line-IsTallied = record {
  capture_valid = four-IsValid;
  process_valid = two-IsValid;
  dropped = refl;
  total = ground (arith, count-gap four-IsValid, count-gap two-IsValid);
}

abbrev array : List Sample
array = replicate 256 blank

abbrev rounds : List Event
rounds =
    sampled (numbered 0 10)
    ∷ sampled (numbered 1 12)
    ∷ processed array
    ∷ popped array
    ∷ sampled (numbered 2 30)
    ∷ processed array
    ∷ []

rings : (Adc.start true 8 resting).1.callback ≡ some 3
unfolding Adc.start
rings = refl

few : length (Adc.run ramp (begin (Adc.start true 8 resting).1 2 10) ticks).taken < 4_294_967_296
unfolding Adc.start Adc.run Adc.step tick take_sample next_time deliver
few = omega arith

nothing_held : held quiet_line ≡ []
unfolding count
nothing_held = refl

brings :
    brought_all rounds
    ≡ given (Adc.run ramp (begin (Adc.start true 8 resting).1 2 10) ticks).delivered
unfolding brought_all brought Adc.start Adc.run Adc.step tick take_sample next_time deliver
brings = refl

run-Rising_example :
    Sublistᴰ
      (gathered_all quiet_line rounds ++ held (run quiet_line rounds))
      (Adc.run ramp (begin (Adc.start true 8 resting).1 2 10) ticks).taken
    × Rising 0 (gathered_all quiet_line rounds ++ held (run quiet_line rounds))
run-Rising_example =
    run-Rising ramp ticks resting 2 8 10 3 rounds refl rings tt few (refl, (refl, (refl, tt)))
      quiet_line-IsTallied nothing_held brings
