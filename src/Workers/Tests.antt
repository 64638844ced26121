-- ===== src/Workers/Tests.antt =====
-- Rounds of the threads on small buffers.
use fast_ring.Prelude.{
  ℕ, ◌≡◌, true, false, Option, none, some, refl, arith, List, [], ◌∷◌, ◌++◌, ◌<◌, length, replicate,
  length-replicate,
}
use fast_ring.Types.{Sample}
use fast_ring.Tally.{tally, is_live}
use fast_ring.Loopback.{accept, loopback}
use fast_ring.Ring.Create.{Handle}
use fast_ring.Manager.{Manager}
use fast_ring.Adc
use fast_ring.Adc.{Simulator}
use fast_ring.Workers.Capture.{
  Chance, start_by, restart, set_up, with_simulator, capture_thread_worker, capture_rounds,
  Captures, capture_rounds-Captures,
}
use fast_ring.Workers.Network.{Network, network_thread_worker}
use fast_ring.Workers.Network.Drained.{Drains}
use fast_ring.Workers.Network.Draining.{network_thread_worker-Drains}
use fast_ring.Workers.Network.Rounds.{Visit, network_rounds, IsTidy, network_rounds-IsTidy}
use fast_ring.Ring.{RingBuffer, count, available, push, push_batch, pop_batch}
use fast_ring.Ring.Inv.{IsValid, count-gap}
use fast_ring.Ring.Window.{blank}
use fast_ring.Workers.{Stats, process_rings, count_push}
use fast_ring.Workers.Passing.{held, brought, IsOrdered}
use fast_ring.Workers.Order.{brought_all, gathered_all, run-IsOrdered, run-all_kept}
use fast_ring.Workers.Process.{IsMove, process_rings-IsMove}
use fast_ring.Workers.Counts.{
  Pipeline, Event, sampled, processed, popped, collect, step, run, IsTallied, run-IsTallied,
}

abbrev numbered : ℕ → Sample
numbered n = record blank { sequence = n }

-- Three samples in a buffer of four slots, and room for one more in a buffer of two.
abbrev front : RingBuffer
front = record {
  head = 3;
  tail = 0;
  capacity = 4;
  mask = 3;
  buffer = numbered 1 ∷ numbered 2 ∷ numbered 3 ∷ numbered 0 ∷ [];
  dropped = 0;
}

abbrev back : RingBuffer
back = record {
  head = 1;
  tail = 1;
  capacity = 2;
  mask = 1;
  buffer = numbered 0 ∷ numbered 0 ∷ [];
  dropped = 0;
}

front-IsValid : IsValid front
front-IsValid = record {
  power = record { exponent = 2; value = refl; low = omega arith; high = omega arith };
  masked = refl;
  sized = refl;
  head_in = omega arith;
  tail_in = omega arith;
  dropped_in = omega arith;
}

back-IsValid : IsValid back
back-IsValid = record {
  power = record { exponent = 1; value = refl; low = omega arith; high = omega arith };
  masked = refl;
  sized = refl;
  head_in = omega arith;
  tail_in = omega arith;
  dropped_in = omega arith;
}

abbrev counters : Stats
counters = record { total_samples = 3; dropped_samples = 0; sent_bytes = 0; send_errors = 0 }

abbrev array : List Sample
array = replicate 256 blank

abbrev line : Pipeline
line = record { capture = front; process = back; stats = counters; collected = 0 }

line-IsTallied : IsTallied line
line-IsTallied = record {
  capture_valid = front-IsValid;
  process_valid = back-IsValid;
  dropped = refl;
  total = ground (arith, count-gap front-IsValid, count-gap back-IsValid);
}

process_rings-IsMove_example :
    IsMove front back counters 3 1 (process_rings front back counters array)
process_rings-IsMove_example =
    process_rings-IsMove counters array front-IsValid back-IsValid (length-replicate 256 blank)
      (omega arith) 3 1 (ground (arith, count-gap front-IsValid))
      (ground (arith, count-gap back-IsValid))

abbrev rounds : List Event
rounds = sampled (numbered 4) ∷ processed array ∷ popped array ∷ processed array ∷ []

run-IsTallied_example : IsTallied (run line rounds)
run-IsTallied_example = run-IsTallied rounds (refl, (refl, (refl, tt))) line-IsTallied

run-IsOrdered_example :
    IsOrdered line
      (run line rounds)
      (brought_all rounds)
      (gathered_all line rounds ++ held (run line rounds))
run-IsOrdered_example = run-IsOrdered rounds (refl, (refl, (refl, tt))) line-IsTallied

-- Two full buffers, the second of which is emptied first.
abbrev steady : Pipeline
steady = record {
  capture = front;
  process = front;
  stats = record counters { total_samples = 6 };
  collected = 0;
}

steady-IsTallied : IsTallied steady
steady-IsTallied = record {
  capture_valid = front-IsValid;
  process_valid = front-IsValid;
  dropped = refl;
  total = ground (arith, count-gap front-IsValid);
}

abbrev calm : List Event
calm = popped array ∷ processed array ∷ sampled (numbered 4) ∷ []

run-steady : (run steady calm).stats.dropped_samples ≡ 0
unfolding run step collect pop_batch process_rings push_batch count_push push count available
run-steady = refl

few-steady : length (held steady ++ brought_all calm) < 18446744073709551616
unfolding brought_all brought count
few-steady = omega arith

run-all_kept_example :
    gathered_all steady calm ++ held (run steady calm) ≡ held steady ++ brought_all calm
run-all_kept_example = run-all_kept calm (refl, (refl, tt)) steady-IsTallied few-steady run-steady

abbrev stock : Manager
stock = record {
  address = 0;
  capture_to_process = none;
  process_to_network = some (record { address = 1; storage = 2; ring = front });
  network_pool = none;
}

abbrev rest : Handle
rest = record { address = 1; storage = 2; ring = front }

abbrev work : Network (tally 30) loopback
work = record {
  buffers = some stock;
  client = none;
  pool = record { blocks = []; is_ready = false; index = 0 };
  stats = record { total_samples = 0; dropped_samples = 0; sent_bytes = 0; send_errors = 0 };
  heap = [];
  net = record { opened = []; output = []; answers = accept 2000 ∷ [] };
}

network_thread_worker-Drains_example :
    Drains
      (tally 30)
      loopback
      stock
      rest
      (is_live [])
      (network_thread_worker (tally 30) loopback 4121 7 (replicate 256 blank) work)
network_thread_worker-Drains_example =
    network_thread_worker-Drains (tally 30) loopback stock rest front-IsValid (replicate 256 blank)
      (length-replicate 256 blank) 4121 (omega arith) 7 (is_live []) work refl refl tt
      (refl, λ q. refl)

abbrev visit_to : Option Manager → Visit
visit_to buffers = record { now = 7; samples = array; buffers = buffers }

abbrev visits : List Visit
visits = visit_to none ∷ visit_to (some stock) ∷ visit_to (some stock) ∷ []

network_rounds-IsTidy_example :
    (w : Network (tally 30) loopback) × (network_rounds (tally 30) loopback 4121 visits work
      ≡ some w)
    × IsTidy (tally 30) loopback (is_live []) w
network_rounds-IsTidy_example =
    network_rounds-IsTidy (tally 30) loopback 4121 (omega arith) (is_live []) visits work
      (
        length-replicate 256 blank,
        tt,
        (
          length-replicate 256 blank,
          front-IsValid,
          (length-replicate 256 blank, front-IsValid, tt),
        ),
      )
      (record { sound = tt; held = (refl, λ q. refl) })

abbrev refused : Chance
refused = record { creates = false; now = 3 }

abbrev granted : Chance
granted = record { creates = true; now = 4 }

abbrev captured : Manager
captured = record stock { capture_to_process = some rest }

abbrev tries : List (Chance × Chance × Option Manager)
tries =
    (refused, refused, none)
    ∷ (refused, refused, some captured)
    ∷ (refused, granted, some captured)
    ∷ []

capture_rounds-Captures_example :
    Captures (tally 1) 8 9 (is_live []) (capture_rounds (tally 1) 8 9 tries (none, []))
capture_rounds-Captures_example = capture_rounds-Captures (tally 1) 8 9 [] tries

captured_once :
    (out : Simulator) × ((capture_rounds (tally 1) 8 9 tries (none, [])).0 ≡ some out)
    × (out.is_running ≡ true)
unfolding capture_rounds capture_thread_worker with_simulator set_up restart start_by Adc.create
    Adc.with_memory Adc.chosen_config Adc.start
captured_once = (_, refl, refl)
